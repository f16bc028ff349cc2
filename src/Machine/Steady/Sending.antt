-- ===== src/Machine/Steady/Sending.antt =====
-- The operations of Machine/Send keep what the changes they make keep.
use ostp.Prelude.{
  ℕ, ◌+◌, ◌≡◌, ◌≢◌, Bool, true, false, List, not, ◌==◌, Bool-cases, inl, inr, u64_max, arith, [],
  ◌∷◌, ltb, ◌||◌, ◌-◌,
}
use ostp.External.{F64}
use ostp.Op.Keeps.{Keeps, bind-Keeps, get-keeps, modify-keeps, lift-keeps, guard-keeps}
use ostp.Framing.{FrameKind}
use ostp.Machine.{ProtocolMachine, Env}
use ostp.Machine.Send.{
  build_datagram, build_tracked_datagram, build_control_datagram, force_build_ack, build_ack_if_due,
  ack_or_clear,
}
use ostp.Machine.Steady.{Sends}

not_eq : (n : ℕ) → not (n == u64_max) ≡ true → n ≢ u64_max
not_eq n h = ground arith

module _ {F S : Type 0} ⦃f : F64 F⦄ (env : Env S) (I : ProtocolMachine F S → Type 0)
    (sends : Sends I) where
  pub build_datagram-Keeps :
      (now stream_id : ℕ) (kind : FrameKind) (payload : List ℕ) (tracked : Bool)
      → Keeps I (build_datagram env now stream_id kind payload tracked)
  unfolding build_datagram
  build_datagram-Keeps now stream_id kind payload tracked m h = get-keeps I _ _ (
      lift-keeps I _ _ _ h λ padding.
        let drawn = sends.draw m (m.draws + 3) h in
        modify-keeps I _ _ _ (
          lift-keeps I _ _ _ drawn λ key. guard-keeps I _ _ _ _ drawn λ fresh.
            let below = not_eq m.send_nonce fresh in
            modify-keeps I _ _ _ (
              lift-keeps I _ _ _ (sends.count _ drawn below)
                λ ciphertext. modify-keeps I _ _ _ (sends.send now _ tracked _ drawn below))))

  pub build_control_datagram-Keeps :
      (now stream_id : ℕ) (kind : FrameKind) (payload : List ℕ)
      → Keeps I (build_control_datagram env now stream_id kind payload)
  unfolding build_control_datagram
  build_control_datagram-Keeps now stream_id kind payload =
      build_datagram-Keeps now stream_id kind payload false

  pub build_tracked_datagram-Keeps :
      (now stream_id : ℕ) (kind : FrameKind) (payload : List ℕ)
      → Keeps I (build_tracked_datagram env now stream_id kind payload)
  unfolding build_tracked_datagram
  build_tracked_datagram-Keeps now stream_id kind payload =
      build_datagram-Keeps now stream_id kind payload true

  ack_or_clear-Keeps : (now : ℕ) (payload : List ℕ) → Keeps I (ack_or_clear env now payload)
  ack_or_clear-Keeps now [] m h = modify-keeps I _ _ _ (sends.acknowledge false m.last_ack_sent m h)
  ack_or_clear-Keeps now (b ∷ payload) m h =
      bind-Keeps I _ _ (build_control_datagram-Keeps now 0 FrameKind.ack (b ∷ payload))
        (λ frame m h. modify-keeps I _ _ _ (sends.acknowledge false now m h)) m h

  pub force_build_ack-Keeps : (now : ℕ) → Keeps I (force_build_ack env now)
  unfolding force_build_ack
  force_build_ack-Keeps now m h = get-keeps I _ _ (ack_or_clear-Keeps now _ m h)

  pub build_ack_if_due-Keeps : (now : ℕ) → Keeps I (build_ack_if_due env now)
  unfolding build_ack_if_due
  build_ack_if_due-Keeps now m h =
      get-keeps I _ _
        (elim (Bool-cases (not m.ack_pending || ltb (now - m.last_ack_sent) m.ack_delay)) [
          | inl q ↦ rw q h
          | inr q ↦ rw q (force_build_ack-Keeps now m h)
        ])
