-- ===== src/Congestion/Rtt.antt =====
-- The round-trip estimator of ostp-core/src/congestion.rs.
use ostp.Prelude.{ℕ, ◌+◌, ◌-◌, ◌*◌, ◌≤◌, min, max, ◌≡◌, true, arith}
use ostp.External.{F64}
use ostp.Congestion.{CongestionController, duration_max}
use ostp.Congestion.Growth.{update_rtt}

module _ {F : Type 0} ⦃f : F64 F⦄ (rtt now : ℕ) (c : CongestionController F) where
  -- After the first sample the smoothed round trip moves towards each new one: it stays between its
  -- old value and the sample, and its distance to the sample shrinks by an eighth, up to rounding.
  pub update_rtt_smooths :
      c.rtt_initialized ≡ true
      → c.srtt ≤ duration_max
      → rtt ≤ duration_max
      → let d = update_rtt rtt now c in
        (min c.srtt rtt ≤ d.srtt)
        × (d.srtt ≤ max c.srtt rtt)
        × (8 * (max d.srtt rtt - min d.srtt rtt) ≤ 7 * (max c.srtt rtt - min c.srtt rtt) + 7)
  unfolding update_rtt
  update_rtt_smooths started small sample = (ground arith, ground arith, ground arith)
