-- ===== src/Machine/Session/Rejects.antt =====
-- Data datagrams that ostp-core/src/protocol.rs does not take: replays, forgeries and frames too far
-- ahead.
use ostp.Prelude.{
  ℕ, ◌≤◌, ◌≡◌, refl, ap, false, Option, some, none, List, length, drop, ltb, leb, add64,
  to_be_bytes, arith, Bool-cases, inl, inr,
}
use ostp.External.{F64}
use ostp.Outcome.{Outcome, ok, err, panic}
use ostp.Op.{◌>>=◌, proceed, pure}
use ostp.Noise.{decrypt, nonce_from_counter}
use ostp.Machine.{ProtocolMachine, ProtocolAction, OstpState, Env}
use ostp.Machine.Send.{push_sent_frame, force_build_ack}
use ostp.Machine.Gap.{is_stalled, recover_stalled_gap, put_first}
use ostp.Machine.Receive.{
  sent_or_noop, answer_duplicate, answer_far, build_nack, accept_datagram, open_datagram,
  handle_data_inbound_frame, handle_data_inbound,
}
use ostp.Machine.Delivery.Arrival.{proceed-pure}
use ostp.Machine.Session.Authentic.{IsAuthentic, nonce_of}
use ostp.Machine.Steady.{Sends}
use ostp.Machine.Steady.Receiving.{answer_duplicate-Keeps, answer_far-Keeps}

-- Nothing for the application.
abbrev pub IsQuiet : Outcome ProtocolAction → Type 0
IsQuiet (ok ProtocolAction.noop) = Unit
IsQuiet (ok (ProtocolAction.send_datagram bytes)) = Unit
IsQuiet (ok _) = ⊥
IsQuiet (err e) = Unit
IsQuiet panic = Unit

module _ {F S : Type 0} ⦃f : F64 F⦄ where
  -- What a session knows of the frames it received.
  abbrev pub received :
      ProtocolMachine F S
      → OstpState × Option (List ℕ) × ℕ × List (ℕ × ProtocolAction) × ℕ × Option ℕ
  received m = (
    m.state, m.recv_cipher, m.expected_recv_nonce, m.reorder_buffer, m.authenticated_recv_count,
    m.highest_authenticated_recv_nonce,
  )

  same-Sends : (m : ProtocolMachine F S) → Sends (λ m'. received m' ≡ received m)
  unfolding push_sent_frame
  same-Sends m = record {
    draw = λ m n h. h;
    count = λ m h fresh. h;
    send = λ now bytes tracked m h fresh. h;
    acknowledge = λ pending stamp m h. h;
  }

  IsQuiet-answer :
      (r : Outcome (Option (List ℕ)) × ProtocolMachine F S)
      → IsQuiet ((proceed (λ frame. pure (sent_or_noop frame)) r).0)
  IsQuiet-answer (ok none, m) = tt
  IsQuiet-answer (ok (some frame), m) = tt
  IsQuiet-answer (err e, m) = tt
  IsQuiet-answer (panic, m) = tt

  answer_duplicate-IsQuiet :
      (env : Env S) (now : ℕ) (m : ProtocolMachine F S) → IsQuiet ((answer_duplicate env now m).0)
  unfolding answer_duplicate ◌>>=◌
  answer_duplicate-IsQuiet env now m = IsQuiet-answer (force_build_ack env now m)

  answer_far-IsQuiet :
      (env : Env S) (now : ℕ) (m : ProtocolMachine F S) → IsQuiet ((answer_far env now m).0)
  unfolding answer_far ◌>>=◌
  answer_far-IsQuiet env now m = IsQuiet-answer (build_nack env now m)

  -- The datagram is long enough, decrypts under its nonce, and the nonce is in the window.
  abbrev pub IsAcceptable : Env S → List ℕ → ProtocolMachine F S → Type 0
  IsAcceptable env raw m =
      (12 ≤ length raw)
      × IsAuthentic env raw m
      × (m.expected_recv_nonce ≤ nonce_of raw)
      × (nonce_of raw ≤ add64 m.expected_recv_nonce m.max_reorder)

  unopened :
      (env : Env S) (now : ℕ) (raw : List ℕ) (m : ProtocolMachine F S)
      → (IsAuthentic env raw m → ⊥)
      → let r = accept_datagram env now (nonce_of raw) (drop 12 raw) m in IsQuiet (r.0) × (r.1 ≡ m)
  unfolding accept_datagram open_datagram decrypt ◌>>=◌
  unopened env now raw m forged = keyed m.recv_cipher refl
    where
      opened :
          (key : List ℕ) (t : Option (List ℕ))
          → m.recv_cipher ≡ some key
          → env.aead.decrypt key
              (nonce_from_counter (nonce_of raw))
              (drop 12 raw)
              (to_be_bytes 4 m.session_id)
            ≡ t
          → let r = accept_datagram env now (nonce_of raw) (drop 12 raw) m in
            IsQuiet (r.0) × (r.1 ≡ m)
      opened key none e d = rw (e, d) (tt, refl)
      opened key (some text) e d =
          absurd (forged (record { key = key; text = text; keyed = e; opened = d }))

      keyed :
          (c : Option (List ℕ))
          → m.recv_cipher ≡ c
          → let r = accept_datagram env now (nonce_of raw) (drop 12 raw) m in
            IsQuiet (r.0) × (r.1 ≡ m)
      keyed none e = rw e (tt, refl)
      keyed (some key) e = opened key _ e refl

  frame_rejected :
      (env : Env S) (now : ℕ) (raw : List ℕ) (m : ProtocolMachine F S)
      → (IsAcceptable env raw m → ⊥)
      → let r = handle_data_inbound_frame env now raw m in
        IsQuiet (r.0) × (received (r.1) ≡ received m)
  unfolding handle_data_inbound_frame ◌>>=◌
  frame_rejected env now raw m wrong =
      let P = λ (m' : ProtocolMachine F S). received m' ≡ received m in
      elim (Bool-cases (leb 12 (length raw))) [
        | inr q ↦ rw q (tt, refl)
        | inl q ↦ elim (Bool-cases (ltb (nonce_of raw) m.expected_recv_nonce)) [
          | inl old ↦
              rw (q, old)
                (
                  answer_duplicate-IsQuiet env now m,
                  answer_duplicate-Keeps env P (same-Sends m) now m refl,
                )
          | inr new ↦
              elim (Bool-cases (ltb (add64 m.expected_recv_nonce m.max_reorder) (nonce_of raw))) [
                | inl far ↦
                    rw (q, new, far)
                      (
                        answer_far-IsQuiet env now m,
                        answer_far-Keeps env P (same-Sends m) now m refl,
                      )
                | inr near ↦
                    let r = unopened env now raw m (λ a.
                      wrong (ground (arith, q), a, ground (arith, new), ground (arith, near))) in
                    rw (q, new, near) (r.0, ap received r.1)
              ]
        ]
      ]

  one_frame :
      (env : Env S) (now : ℕ) (raw : List ℕ) (m : ProtocolMachine F S)
      → is_stalled now m ≡ false
      → handle_data_inbound env now raw m ≡ handle_data_inbound_frame env now raw m
  unfolding handle_data_inbound recover_stalled_gap put_first ◌>>=◌
  one_frame env now raw m e = rw e (proceed-pure env (handle_data_inbound_frame env now raw m))

  -- A datagram that is too short, that does not decrypt under the session's key and its own nonce, or
  -- whose nonce is below the expected one or beyond the window, brings the application nothing and
  -- leaves all that the session knows of received frames, in a session that is not stalled behind a
  -- missing frame: it is refused, or answered with an acknowledgement or a request.
  pub rejected_changes_nothing :
      (env : Env S) (now : ℕ) (raw : List ℕ) (m : ProtocolMachine F S)
      → is_stalled now m ≡ false
      → (IsAcceptable env raw m → ⊥)
      → let r = handle_data_inbound env now raw m in IsQuiet (r.0) × (received (r.1) ≡ received m)
  rejected_changes_nothing env now raw m flows wrong =
      rw (one_frame env now raw m flows) (frame_rejected env now raw m wrong)
