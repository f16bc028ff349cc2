-- ===== src/Machine/Gap.antt =====
-- `recover_stalled_gap` of ostp-core/src/protocol.rs: how long the receive sequence waits for a missing
-- frame, and the jump over it.
use ostp.Prelude.{
  ℕ, Bool, true, not, ◌&&◌, ◌-◌, true, not, ◌&&◌, List, [], ◌∷◌, ◌++◌, length, ltb, ◌==◌,
  if◌then◌else◌,
}
use ostp.External.{F64}
use ostp.Congestion.{rto, clamp, duration_mul}
use ostp.Reorder.{skip_gap}
use ostp.Machine.{ProtocolMachine, ProtocolAction, from_actions, collate}

abbrev pub payloads : {A : Type 0} → List (ℕ × A) → List A
payloads [] = []
payloads ((k, a) ∷ m) = a ∷ payloads m

-- The recovered actions, then those of the frame.
abbrev flatten : ProtocolAction → List ProtocolAction
flatten ProtocolAction.noop = []
flatten (ProtocolAction.multiple l) = from_actions l
flatten a = a ∷ []

unfoldable pub put_first : List ProtocolAction → ProtocolAction → ProtocolAction
put_first [] result = result
put_first (a ∷ l) result = collate ((a ∷ l) ++ flatten result)

abbrev pub gap_recovery_rto_multiplier : ℕ
gap_recovery_rto_multiplier = 8

abbrev pub gap_recovery_min : ℕ
gap_recovery_min = 2_000_000_000

abbrev pub gap_recovery_max : ℕ
gap_recovery_max = 10_000_000_000

module _ {F S : Type 0} ⦃f : F64 F⦄ where
  unfoldable pub gap_timeout : ProtocolMachine F S → ℕ
  gap_timeout m =
      clamp gap_recovery_min gap_recovery_max (duration_mul (rto m.cc) gap_recovery_rto_multiplier)

  -- Later frames are buffered, and nothing moved for that long.
  unfoldable pub is_stalled : ℕ → ProtocolMachine F S → Bool
  unfolding gap_timeout
  is_stalled now m =
      not (length m.reorder_buffer == 0) && not (ltb (now - m.last_recv_advance) (gap_timeout m))

  -- The state with the gap skipped.
  abbrev pub jump : ℕ → ProtocolMachine F S → ProtocolMachine F S
  jump now m =
      let d = skip_gap m.expected_recv_nonce m.reorder_buffer in
      record m {
        expected_recv_nonce = d.expected;
        reorder_buffer = d.buffer;
        last_recv_advance = now;
        ack_pending = true;
      }

  unfoldable pub recover_stalled_gap :
      ℕ → ProtocolMachine F S → List ProtocolAction × ProtocolMachine F S
  recover_stalled_gap now m =
      if is_stalled now m
      then (payloads ((skip_gap m.expected_recv_nonce m.reorder_buffer).delivered), jump now m)
      else ([], m)
