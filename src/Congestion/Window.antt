-- ===== src/Congestion/Window.antt =====
-- The congestion window of ostp-core/src/congestion.rs: its bounds, growth and reaction to loss.
use ostp.Prelude.{
  ℕ, ◌+◌, ◌*◌, ◌/◌, ◌-◌, ◌^◌, ◌≤◌, ◌<◌, min, max, ◌≡◌, refl, ◌↔◌, true, false, ◌||◌, List, [], ◌∷◌,
  arith, leb, if◌then◌else◌, mul64,
}
use ostp.External.{F64}
use ostp.Congestion.{Phase, CongestionController, new, reset_path, on_send}
use ostp.Congestion.Growth.{
  inflation, grow_window, update_pacing_rate, update_rtt, account_ack, on_ack_no_rtt, on_ack,
  on_loss,
}

-- At least two packets and at most 1024, for a packet size that cannot wrap a u64.
pub record IsBounded {F : Type 0} (c : CongestionController F) : Type 0 where
  pub mtu_pos : 0 < c.mtu
  pub mtu_small : c.mtu < 2 ^ 32
  pub floor : 2 * c.mtu ≤ c.cwnd
  pub ceiling : c.cwnd ≤ 1024 * c.mtu

share-le : (bytes mtu cwnd : ℕ) → 0 < cwnd → bytes ≤ cwnd → bytes * mtu / cwnd ≤ mtu
share-le bytes mtu cwnd p h = grind arith

div_mono : (a b d : ℕ) → a ≤ b → 0 < d → a / d ≤ b / d
div_mono a b d h p = grind arith

share64-le : (bytes mtu cwnd : ℕ) → 0 < cwnd → bytes ≤ cwnd → mul64 bytes mtu / max cwnd 1 ≤ mtu
share64-le bytes mtu cwnd p h =
    let e : max cwnd 1 ≡ cwnd = omega arith in
    rw e (
      omega (
        arith,
        share-le bytes mtu cwnd p h,
        div_mono (mul64 bytes mtu) (bytes * mtu) cwnd (omega arith) p,
      ))

IsBounded-same :
    {F : Type 0} (c d : CongestionController F)
    → d.cwnd ≡ c.cwnd
    → d.mtu ≡ c.mtu
    → IsBounded c
    → IsBounded d
IsBounded-same c d p q v = omega arith

-- The calls that change a controller, as its owner makes them.
pub data Call : Type 0 where
  sends : ℕ → Call
  acks : ℕ → ℕ → Call
  acks_no_rtt : ℕ → Call
  loses : ℕ → Call
  moves : Call

module _ {F : Type 0} ⦃f : F64 F⦄ where
  -- One call, at a reading of the clock.
  unfoldable pub step : CongestionController F → ℕ × Call → CongestionController F
  step c (now, sends bytes) = on_send now bytes c
  step c (now, acks bytes rtt) = on_ack now bytes rtt c
  step c (now, acks_no_rtt bytes) = on_ack_no_rtt now bytes c
  step c (now, loses bytes) = on_loss now bytes c
  step c (now, moves) = reset_path now c

  pub run : CongestionController F → List (ℕ × Call) → CongestionController F
  run c [] = c
  run c (call ∷ calls) = run (step c call) calls

  pub new-IsBounded : (mtu now : ℕ) → 0 < mtu → mtu < 2 ^ 32 → IsBounded (new {F = F} mtu now)
  unfolding new
  new-IsBounded mtu now p q = omega arith

  grow_window-IsBounded :
      (bytes : ℕ) (c : CongestionController F) → IsBounded c → IsBounded (grow_window bytes c)
  unfolding grow_window
  grow_window-IsBounded bytes c v = ground arith

  update_rtt-IsBounded :
      (rtt now : ℕ) (c : CongestionController F) → IsBounded c → IsBounded (update_rtt rtt now c)
  unfolding update_rtt
  update_rtt-IsBounded rtt now c v = ground arith

  on_loss-IsBounded :
      (now bytes : ℕ) (c : CongestionController F) → IsBounded c → IsBounded (on_loss now bytes c)
  unfolding on_loss
  on_loss-IsBounded now bytes c v = ground arith

  pub step-IsBounded :
      (c : CongestionController F) (call : ℕ × Call) → IsBounded c → IsBounded (step c call)
  unfolding step on_send account_ack update_pacing_rate on_ack on_ack_no_rtt reset_path
  step-IsBounded c (now, sends bytes) v = IsBounded-same c _ refl refl v
  step-IsBounded c (now, acks bytes rtt) v =
      let counted = IsBounded-same c (account_ack bytes c) refl refl v in
      let measured = update_rtt-IsBounded rtt now (account_ack bytes c) counted in
      IsBounded-same _ _ refl refl (grow_window-IsBounded bytes _ measured)
  step-IsBounded c (now, acks_no_rtt bytes) v =
      let counted = IsBounded-same c (account_ack bytes c) refl refl v in
      IsBounded-same _ _ refl refl (grow_window-IsBounded bytes _ counted)
  step-IsBounded c (now, loses bytes) v = on_loss-IsBounded now bytes c v
  step-IsBounded c (now, moves) v =
      IsBounded-same (new c.mtu now) _ refl refl (new-IsBounded c.mtu now v.mtu_pos v.mtu_small)

  run-IsBounded :
      (c : CongestionController F) (calls : List (ℕ × Call)) → IsBounded c → IsBounded (run c calls)
  unfolding run
  run-IsBounded c [] v = v
  run-IsBounded c (call ∷ calls) v = run-IsBounded (step c call) calls (step-IsBounded c call v)

  -- For a packet size from 1 to 2 ^ 32 - 1, whatever sequence of sends, acknowledgements, losses and
  -- path changes follows, and whatever the floating-point ratios are, the window stays between two
  -- and 1024 packets.
  pub window_bounds :
      (mtu now : ℕ) (calls : List (ℕ × Call))
      → 0 < mtu
      → mtu < 2 ^ 32
      → IsBounded (run (new {F = F} mtu now) calls)
  window_bounds mtu now calls p q = run-IsBounded _ calls (new-IsBounded mtu now p q)

  -- Delay as congestion: once the smoothed round trip is at least four times the least one, an
  -- acknowledgement halves the window (down to two packets at least) and ends slow start.
  pub grow_window_drains :
      (bytes : ℕ) (c : CongestionController F)
      → IsBounded c
      → f.ge (inflation c) (f.of_nat 4) ≡ true
      → let d = grow_window bytes c in
        (d.cwnd ≡ max (c.cwnd / 2) (2 * c.mtu))
        × (d.ssthresh ≡ d.cwnd)
        × (d.phase ≡ Phase.probe_bandwidth)
  unfolding grow_window
  grow_window_drains bytes c v h = ground arith

  -- Slow start: while the ratio is below two the window grows by the acknowledged bytes, up to 1024
  -- packets; once it is at least two (and below four) the window stays and slow start is over.
  pub grow_window_slow_start :
      (bytes : ℕ) (c : CongestionController F)
      → IsBounded c
      → bytes ≤ c.cwnd
      → f.ge (inflation c) (f.of_nat 4) ≡ false
      → c.phase ≡ Phase.slow_start
      → let d = grow_window bytes c in
        let inflated = f.ge (inflation c) (f.of_nat 2) in
        (d.cwnd ≡ (if inflated then c.cwnd else min (c.cwnd + bytes) (1024 * c.mtu)))
        × (d.phase ≡ (
            if inflated || leb c.ssthresh (c.cwnd + bytes)
            then Phase.probe_bandwidth
            else Phase.slow_start))
  unfolding grow_window
  grow_window_slow_start bytes c v h below p = (ground arith, ground arith)

  -- Probing: below a ratio of four, the acknowledgement of at most a window of bytes never shrinks
  -- the window, adds at most one packet to it, and the phase stays.
  pub grow_window_probe :
      (bytes : ℕ) (c : CongestionController F)
      → IsBounded c
      → bytes ≤ c.cwnd
      → f.ge (inflation c) (f.of_nat 4) ≡ false
      → c.phase ≡ Phase.probe_bandwidth
      → let d = grow_window bytes c in
        (c.cwnd ≤ d.cwnd) × (d.cwnd ≤ c.cwnd + c.mtu) × (d.phase ≡ Phase.probe_bandwidth)
  unfolding grow_window
  grow_window_probe bytes c v h below p =
      let share = share64-le bytes c.mtu c.cwnd (omega arith) h in
      (ground (arith, share), ground (arith, share), ground arith)

  -- A loss never raises the window, and takes it to no less than half of it, or two packets.
  pub on_loss_shrinks :
      (now bytes : ℕ) (c : CongestionController F)
      → IsBounded c
      → ((on_loss now bytes c).cwnd ≤ c.cwnd)
        × (max (c.cwnd / 2) (2 * c.mtu) ≤ (on_loss now bytes c).cwnd)
  unfolding on_loss
  on_loss_shrinks now bytes c v = (ground arith, ground arith)

  -- A loss ends slow start exactly when it is at least the third in its window of half a second.
  pub on_loss_slow_start :
      (now bytes : ℕ) (c : CongestionController F)
      → c.phase ≡ Phase.slow_start
      → c.slow_start_losses < 2 ^ 32 - 1
      → ((on_loss now bytes c).phase ≡ Phase.probe_bandwidth)
        ↔ ((now - c.slow_start_loss_window_start ≤ 500_000_000) × (2 ≤ c.slow_start_losses))
  unfolding on_loss
  on_loss_slow_start now bytes c p small = ground arith
