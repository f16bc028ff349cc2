-- ===== src/Machine/Steady/Receiving.antt =====
-- The operations of Machine/Feedback and Machine/Receive keep what the changes they make keep.
use ostp.Prelude.{
  ℕ, ◌≤◌, ◌≡◌, Bool, true, false, Option, none, some, List, refl, ◌==◌, Bool-cases, inl, inr, arith,
  ltb, ◌-◌, length, take, drop, leb, ◌&&◌, from_be_bytes, add64,
}
use ostp.External.{F64}
use ostp.Op.Keeps.{
  Keeps, bind-Keeps, bind-at, bind-into, get-keeps, modify-keeps, lift-keeps, guard-keeps,
  attempt-Keeps,
}
use ostp.Framing.{FrameKind, FramedPacket}
use ostp.History.{SentFrame, lookup_sent_frame}
use ostp.Machine.{ProtocolMachine, Env, ProtocolAction}
use ostp.Machine.Gap.{is_stalled, recover_stalled_gap}
use ostp.Machine.Feedback.{
  drop_acked_frames, answer_nack, process_nack, process_ack, is_nack, is_ack,
}
use ostp.Machine.Steady.Sending.{
  build_control_datagram-Keeps, force_build_ack-Keeps, build_ack_if_due-Keeps,
}
use ostp.Machine.Receive.{
  place_result, build_nack, nack_cooldown, answer_duplicate, answer_far, nack_if_due, open_datagram,
  sequence, accept_datagram, accept_packet, handle_data_inbound_frame, handle_data_inbound,
  action_of, note_kind,
}
use ostp.Machine.Steady.{Sends, Hears, Heeds, Receives}

not_ltb : (a b : ℕ) → ltb a b ≡ false → b ≤ a
not_ltb a b h = ground arith

module _ {F S : Type 0} ⦃f : F64 F⦄ (I : ProtocolMachine F S → Type 0) (heeds : Heeds I) where
  answer_nack-Keeps :
      (now nonce : ℕ) (r : Option (List ℕ × List SentFrame)) (m : ProtocolMachine F S)
      → lookup_sent_frame now nonce m.sent_history ≡ r
      → I m
      → I ((answer_nack now r m).1)
  answer_nack-Keeps now nonce none m e h = heeds.lose now 1200 m h
  answer_nack-Keeps now nonce (some (bytes, frames)) m e h =
      heeds.lose now (length bytes) _ (heeds.look_up now nonce m bytes frames e h)

  pub process_nack-Keeps : (now : ℕ) (p : FramedPacket) → Keeps I (process_nack now p)
  unfolding process_nack
  process_nack-Keeps now p m h =
      get-keeps I _ _ (elim (Bool-cases (is_nack p.header.kind && leb 8 (length p.payload))) [
        | inl q ↦ rw q (answer_nack-Keeps now (from_be_bytes (take 8 p.payload)) _ m refl h)
        | inr q ↦ rw q h
      ])

  pub process_ack-Keeps : (now : ℕ) (p : FramedPacket) → Keeps I (process_ack now p)
  unfolding process_ack
  process_ack-Keeps now p m h = elim (Bool-cases (is_ack p.header.kind)) [
    | inl q ↦ rw q (lift-keeps I _ _ _ h λ ranges. heeds.drop_acked now ranges m h)
    | inr q ↦ rw q h
  ]

module _ {F S : Type 0} ⦃f : F64 F⦄ (I : ProtocolMachine F S → Type 0) (hears : Hears I) where
  heeds_of : Heeds I
  heeds_of = record {
    lose = hears.lose;
    look_up = hears.look_up;
    drop_acked = hears.drop_acked;
    note = hears.note;
  }

  open_datagram-Keeps :
      (env : Env S) (nonce : ℕ) (ciphertext : List ℕ) → Keeps I (open_datagram env nonce ciphertext)
  unfolding open_datagram
  open_datagram-Keeps env nonce ciphertext m h = get-keeps I _ _ (
      lift-keeps I _ _ _ h
        λ key. lift-keeps I _ _ _ h λ plaintext. modify-keeps I _ _ _ (hears.authenticate _ _ m h))

module _ {F S : Type 0} ⦃f : F64 F⦄ (env : Env S) (I : ProtocolMachine F S → Type 0)
    (sends : Sends I) where
  pub answer_duplicate-Keeps : (now : ℕ) → Keeps I (answer_duplicate env now)
  unfolding answer_duplicate
  answer_duplicate-Keeps now =
      bind-Keeps I _ _ (force_build_ack-Keeps env I sends now) λ frame m h. h

  build_nack-Keeps : (now : ℕ) → Keeps I (build_nack env now)
  build_nack-Keeps now m h =
      get-keeps I _ _
        (attempt-Keeps I _ (build_control_datagram-Keeps env I sends now 0 FrameKind.nack _) m h)

  pub answer_far-Keeps : (now : ℕ) → Keeps I (answer_far env now)
  unfolding answer_far
  answer_far-Keeps now = bind-Keeps I _ _ (build_nack-Keeps now) λ frame m h. h

-- The predicate, of a state that has not come to a nonce yet.
abbrev Waiting : {F S : Type 0} → ℕ → (ProtocolMachine F S → Type 0) → ProtocolMachine F S → Type 0
Waiting nonce I m = I m × (m.expected_recv_nonce ≤ nonce)

Waiting-Heeds :
    {F S : Type 0} ⦃f : F64 F⦄ {I : ProtocolMachine F S → Type 0} (nonce : ℕ)
    → Heeds I
    → Heeds (Waiting nonce I)
unfolding drop_acked_frames note_kind
Waiting-Heeds nonce heeds = record {
  lose = λ now bytes m (h, le). (heeds.lose now bytes m h, le);
  look_up = λ now n m bytes frames e (h, le). (heeds.look_up now n m bytes frames e h, le);
  drop_acked = λ now ranges m (h, le). (heeds.drop_acked now ranges m h, le);
  note = λ kind m (h, le). (heeds.note kind m h, le);
}

Waiting-Hears :
    {F S : Type 0} ⦃f : F64 F⦄ {I : ProtocolMachine F S → Type 0} (nonce : ℕ)
    → Hears I
    → Hears (Waiting nonce I)
unfolding drop_acked_frames note_kind
Waiting-Hears nonce hears = record {
  authenticate = λ count highest m (h, le). (hears.authenticate count highest m h, le);
  lose = λ now bytes m (h, le). (hears.lose now bytes m h, le);
  look_up = λ now n m bytes frames e (h, le). (hears.look_up now n m bytes frames e h, le);
  drop_acked = λ now ranges m (h, le). (hears.drop_acked now ranges m h, le);
  note = λ kind m (h, le). (hears.note kind m h, le);
}

module _ {F S : Type 0} ⦃f : F64 F⦄ (env : Env S) (I : ProtocolMachine F S → Type 0)
    (sends : Sends I) (heeds : Heeds I) (receives : Receives I) where
  nack_if_due-Keeps : (now : ℕ) → Keeps I (nack_if_due env now)
  unfolding nack_if_due
  nack_if_due-Keeps now m h =
      get-keeps I _ _ (elim (Bool-cases (leb (nack_cooldown m) (now - m.last_nack_sent))) [
        | inl q ↦ rw q (
            modify-keeps I _ _ _ (
              bind-Keeps I _ _ (build_nack-Keeps env I sends now) (λ frame m h. h) _
                (receives.nacked now m h)))
        | inr q ↦ rw q h
      ])

  placed-Keeps :
      (now : ℕ) (in_order ready : Bool) (delivered : List ProtocolAction) (m : ProtocolMachine F S)
      → I m
      → I ((place_result env now in_order ready delivered m).1)
  placed-Keeps now true ready delivered m h = guard-keeps I _ _ _ _ h λ q. h
  placed-Keeps now false ready delivered m h =
      bind-Keeps I _ _ (nack_if_due-Keeps now) (λ nacks m h. h) m h

  sequence-keeps :
      (now nonce : ℕ) (action : ProtocolAction) (m : ProtocolMachine F S)
      → m.expected_recv_nonce ≤ nonce
      → I m
      → I ((sequence env now nonce action m).1)
  unfolding sequence
  sequence-keeps now nonce action m le h =
      let placed = receives.insert now nonce action m le h in
      get-keeps I _ _
        (modify-keeps I _ _ _ (placed-Keeps now (nonce == m.expected_recv_nonce) _ _ _ placed))

  -- From the frame of an authentic datagram on.
  pub accepted-keeps :
      (now nonce : ℕ) (packet : FramedPacket) (m : ProtocolMachine F S)
      → m.expected_recv_nonce ≤ nonce
      → I m
      → I ((accept_packet env now nonce packet m).1)
  unfolding accept_packet note_kind
  accepted-keeps now nonce packet m le h =
      let J = Waiting nonce I in
      let weaken : (m : ProtocolMachine F S) → J m → I m = λ m h. h.0 in
      let waits = Waiting-Heeds nonce heeds in
      bind-into J I weaken _ _ (process_nack-Keeps J waits now packet)
        (λ sent. bind-into J I weaken _ _ (process_ack-Keeps J waits now packet) λ done m h.
          modify-keeps I _ _ _ (
            let heard = waits.note packet.header.kind m h in
            bind-at I _ _ _ (sequence-keeps now nonce (action_of packet) _ (heard.1) (heard.0))
              λ placed. bind-Keeps I _ _ (build_ack_if_due-Keeps env I sends now) λ frame m h. h))
        m (h, le)

module _ {F S : Type 0} ⦃f : F64 F⦄ (env : Env S) (I : ProtocolMachine F S → Type 0)
    (sends : Sends I) (hears : Hears I) (receives : Receives I) where
  accept_datagram-keeps :
      (now nonce : ℕ) (ciphertext : List ℕ) (m : ProtocolMachine F S)
      → m.expected_recv_nonce ≤ nonce
      → I m
      → I ((accept_datagram env now nonce ciphertext m).1)
  unfolding accept_datagram
  accept_datagram-keeps now nonce ciphertext m le h =
      let J = Waiting nonce I in
      let weaken : (m : ProtocolMachine F S) → J m → I m = λ m h. h.0 in
      bind-into J I weaken _ _
        (open_datagram-Keeps J (Waiting-Hears nonce hears) env nonce ciphertext)
        (λ packet m h.
          accepted-keeps env I sends (heeds_of I hears) receives now nonce packet m h.1 h.0)
        m (h, le)

  handle_data_inbound_frame-Keeps :
      (now : ℕ) (raw : List ℕ) → Keeps I (handle_data_inbound_frame env now raw)
  unfolding handle_data_inbound_frame
  handle_data_inbound_frame-Keeps now raw m h =
      let nonce = from_be_bytes (take 8 (drop 4 raw)) in
      get-keeps I _ _ (
        guard-keeps I _ _ _ _ h λ long. elim (Bool-cases (ltb nonce m.expected_recv_nonce)) [
          | inl q ↦ rw q (answer_duplicate-Keeps env I sends now m h)
          | inr q ↦ elim (Bool-cases (ltb (add64 m.expected_recv_nonce m.max_reorder) nonce)) [
            | inl r ↦ rw (q, r) (answer_far-Keeps env I sends now m h)
            | inr r ↦ rw (q, r) (accept_datagram-keeps now nonce (drop 12 raw) m (not_ltb _ _ q) h)
          ]
        ])

  recover_stalled_gap-keeps :
      (now : ℕ) (m : ProtocolMachine F S) → I m → I ((recover_stalled_gap now m).1)
  unfolding recover_stalled_gap
  recover_stalled_gap-keeps now m h = elim (Bool-cases (is_stalled now m)) [
    | inl q ↦ rw q (receives.skip now m h)
    | inr q ↦ rw q h
  ]

  pub handle_data_inbound-Keeps :
      (now : ℕ) (raw : List ℕ) → Keeps I (handle_data_inbound env now raw)
  unfolding handle_data_inbound
  handle_data_inbound-Keeps now raw m h =
      bind-Keeps I _ _ (handle_data_inbound_frame-Keeps now raw) (λ result m h. h) _
        (recover_stalled_gap-keeps now m h)
