-- ===== src/Machine/Session/Stalls.antt =====
-- A session of ostp-core/src/protocol.rs whose receive sequence is stuck behind a frame that does not
-- come.
use ostp.Prelude.{
  ℕ, suc, ◌+◌, ◌-◌, ◌≤◌, ◌<◌, ◌≡◌, ◌↔◌, refl, sym, subst, true, some, none, List, [], ◌∷◌, arith,
  length, drop, ◌==◌, Bool-cases, inl, inr, u64_max, add64, to_be_bytes, le→leb, le→not-ltb,
}
use ostp.External.{F64}
use ostp.Outcome.{err, crypto}
use ostp.Op.{◌>>=◌}
use ostp.Noise.{decrypt, nonce_from_counter}
use ostp.Reorder.{Drained, drain_all, skip_gap, remove}
use ostp.Reorder.Sorted.{Above, Above-mono, drain_goes}
use ostp.Reorder.Ahead.{drain-Ahead}
use ostp.Machine.{ProtocolMachine, ProtocolAction, Env}
use ostp.Machine.Gap.{payloads, gap_timeout, is_stalled, jump, recover_stalled_gap}
use ostp.Machine.Receive.{
  open_datagram, accept_datagram, handle_data_inbound_frame, handle_data_inbound,
}
use ostp.Machine.Session.Authentic.{nonce_of}

remove_head :
    (k : ℕ) (a : ProtocolAction) (rest : List (ℕ × ProtocolAction))
    → remove k ((k, a) ∷ rest) ≡ some (a, rest)
unfolding remove
remove_head k a rest = let e : (k == k) ≡ true = ground arith in rw e

MovesOn : ℕ → Drained ProtocolAction → Type 0
MovesOn e d = (0 < length (payloads d.delivered)) × (e < d.expected)

skip_first :
    (e k : ℕ) (a : ProtocolAction) (rest : List (ℕ × ProtocolAction))
    → Above (suc e) ((k, a) ∷ rest)
    → MovesOn e (skip_gap e ((k, a) ∷ rest))
unfolding skip_gap drain_all MovesOn
skip_first e k a rest s =
    let later = Above-mono {lo = suc k} {lo' = k + 1} rest (omega arith) s.1 in
    let tail = drain-Ahead (length rest) (k + 1) rest (omega arith) later in
    subst (MovesOn e)
      (sym (drain_goes (length rest) k ((k, a) ∷ rest) rest a (remove_head k a rest)))
      (elim (Bool-cases (k == u64_max)) [
        | inl last ↦ rw last (omega arith, omega (arith, s.0))
        | inr more ↦ rw more (omega arith, omega (arith, s.0, tail.onward))
      ])

skip-MovesOn :
    (e : ℕ) (m : List (ℕ × ProtocolAction))
    → Above (suc e) m
    → 0 < length m
    → MovesOn e (skip_gap e m)
skip-MovesOn e [] s h = absurd (omega arith)
skip-MovesOn e ((k, a) ∷ rest) s h = skip_first e k a rest s

-- The first buffered frame is delivered and passed, and only frames above what is then expected stay.
Leaves : ℕ → ProtocolAction → Drained ProtocolAction → Type 0
Leaves k a d =
    ((later : List ProtocolAction) × (payloads d.delivered ≡ a ∷ later))
    × (k ≤ d.expected)
    × Above (suc d.expected) d.buffer

skip-Leaves :
    (e k : ℕ) (a : ProtocolAction) (rest : List (ℕ × ProtocolAction))
    → Above (suc e) ((k, a) ∷ rest)
    → Leaves k a (skip_gap e ((k, a) ∷ rest))
unfolding skip_gap drain_all Leaves
skip-Leaves e k a rest s =
    let later = Above-mono {lo = suc k} {lo' = k + 1} rest (omega arith) s.1 in
    let tail = drain-Ahead (length rest) (k + 1) rest (omega arith) later in
    subst (Leaves k a)
      (sym (drain_goes (length rest) k ((k, a) ∷ rest) rest a (remove_head k a rest)))
      (elim (Bool-cases (k == u64_max)) [
        | inl last ↦ rw last (([], refl), omega arith, s.1)
        | inr more ↦ rw more ((_, refl), omega (arith, tail.onward), tail.above)
      ])

module _ {F S : Type 0} ⦃f : F64 F⦄ where
  -- The wait for a missing frame is between two and ten seconds, and gap recovery acts exactly when
  -- later frames are buffered and nothing moved for that long.
  pub recovery_waits :
      (now : ℕ) (m : ProtocolMachine F S)
      → (2_000_000_000 ≤ gap_timeout m)
        × (gap_timeout m ≤ 10_000_000_000)
        × ((is_stalled now m ≡ true)
            ↔ ((0 < length m.reorder_buffer) × (gap_timeout m ≤ now - m.last_recv_advance)))
  unfolding gap_timeout is_stalled
  recovery_waits now m = (ground arith, ground arith, ground arith)

  stalled_then :
      (now : ℕ) (m : ProtocolMachine F S)
      → 0 < length m.reorder_buffer
      → 10_000_000_000 ≤ now - m.last_recv_advance
      → is_stalled now m ≡ true
  unfolding gap_timeout is_stalled
  stalled_then now m held late = ground arith

  -- A session that waited ten seconds behind a missing frame, with later frames buffered in order,
  -- is not stuck: recovery delivers at least one of them, and the expected nonce rises.
  pub stalled_session_moves_on :
      (now : ℕ) (m : ProtocolMachine F S)
      → Above (suc m.expected_recv_nonce) m.reorder_buffer
      → 0 < length m.reorder_buffer
      → 10_000_000_000 ≤ now - m.last_recv_advance
      → (0 < length ((recover_stalled_gap now m).0))
        × (m.expected_recv_nonce < (recover_stalled_gap now m).1.expected_recv_nonce)
  unfolding recover_stalled_gap MovesOn
  stalled_session_moves_on now m above held late =
      let stalled : is_stalled now m ≡ true = stalled_then now m held late in
      rw stalled (skip-MovesOn m.expected_recv_nonce m.reorder_buffer above held)

  -- In a stalled session a datagram that does not decrypt, with a nonce that is in the window after the
  -- recovery, takes the recovered frames along: the first buffered frame is among those that recovery
  -- delivers, and the sequence is past it and holds it no more, but the error that is returned in
  -- their place does not hold them.
  pub forgery_loses_recovered :
      (env : Env S) (now : ℕ) (raw key : List ℕ) (k : ℕ) (a : ProtocolAction)
      (rest : List (ℕ × ProtocolAction)) (m : ProtocolMachine F S)
      → m.reorder_buffer ≡ (k, a) ∷ rest
      → Above (suc m.expected_recv_nonce) ((k, a) ∷ rest)
      → is_stalled now m ≡ true
      → 12 ≤ length raw
      → (jump now m).expected_recv_nonce ≤ nonce_of raw
      → nonce_of raw ≤ add64 (jump now m).expected_recv_nonce m.max_reorder
      → m.recv_cipher ≡ some key
      → env.aead.decrypt key
          (nonce_from_counter (nonce_of raw))
          (drop 12 raw)
          (to_be_bytes 4 m.session_id)
        ≡ none
      → let r = handle_data_inbound env now raw m in
        (r.0 ≡ err crypto)
        × ((later : List ProtocolAction) × ((recover_stalled_gap now m).0 ≡ a ∷ later))
        × (k ≤ r.1.expected_recv_nonce)
        × Above (suc r.1.expected_recv_nonce) r.1.reorder_buffer
  unfolding handle_data_inbound handle_data_inbound_frame recover_stalled_gap accept_datagram
      open_datagram decrypt Leaves ◌>>=◌
  forgery_loses_recovered env now raw key k a rest m held above stalled long new near keyed bad =
      let left =
        subst (λ b. Leaves k a (skip_gap m.expected_recv_nonce b)) (sym held)
          (skip-Leaves m.expected_recv_nonce k a rest above) in
      rw (stalled, le→leb _ _ long, le→not-ltb _ _ new, le→not-ltb _ _ near, keyed, bad)
        (refl, left.0, left.1, left.2)
