-- ===== src/Machine/Receive.antt =====
-- The receiving half of ostp-core/src/protocol.rs: what a data datagram does to an established
-- session.

pub mod Layout
use ostp.Prelude.{
  ℕ, ◌-◌, ◌/◌, max, Bool, true, false, not, ◌&&◌, ◌||◌, Option, none, some, List, [], ◌∷◌, ◌++◌,
  length, take, drop, ltb, leb, ◌==◌, if◌then◌else◌, u64_max, add64, to_be_bytes, from_be_bytes,
}
use ostp.External.{F64}
use ostp.Outcome.{Outcome, ok_or, state, crypto, framing}
use ostp.Op.{Op, ◌>>=◌, ◌>>◌, pure, get, modify, lift, guard, attempt}
use ostp.Noise.{decrypt}
use ostp.Congestion.{rto}
use ostp.Framing.{FrameKind, FramedPacket, decode_zero_copy}
use ostp.Reorder.{Drained, accept}
use ostp.Machine.{ProtocolMachine, Env, ProtocolAction, OstpState, collate}
use ostp.Machine.Gap.{payloads, recover_stalled_gap, put_first}
use ostp.Machine.Feedback.{process_nack, process_ack}
use ostp.Machine.Send.{build_control_datagram, force_build_ack, build_ack_if_due}

-- `Option<u64>` in its order, `None` first.
abbrev pub raise_to : ℕ → Option ℕ → Option ℕ
raise_to n none = some n
raise_to n (some k) = if ltb k n then some n else some k

abbrev pub sent_or_noop : Option (List ℕ) → ProtocolAction
sent_or_noop none = ProtocolAction.noop
sent_or_noop (some frame) = ProtocolAction.send_datagram frame

abbrev pub sent_list : Option (List ℕ) → List ProtocolAction
sent_list none = []
sent_list (some frame) = ProtocolAction.send_datagram frame ∷ []

-- What a frame of that kind gives to the application, at its place in the sequence.
abbrev pub action_of : FramedPacket → ProtocolAction
action_of p = elim p.header.kind [
  | FrameKind.data_frame ↦ ProtocolAction.deliver_app p.header.stream_id p.payload
  | FrameKind.handshake ↦ ProtocolAction.noop
  | FrameKind.close ↦ ProtocolAction.noop
  | FrameKind.keep_alive ↦ ProtocolAction.noop
  | FrameKind.nack ↦ ProtocolAction.noop
  | FrameKind.ack ↦ ProtocolAction.noop
]

abbrev pub is_close : FrameKind → Bool
is_close FrameKind.close = true
is_close _ = false

abbrev pub wants_ack : FrameKind → Bool
wants_ack FrameKind.data_frame = true
wants_ack FrameKind.close = true
wants_ack FrameKind.keep_alive = true
wants_ack _ = false

module _ {F S : Type 0} ⦃f : F64 F⦄ where
  abbrev pub place : ℕ → ℕ → Drained ProtocolAction → ProtocolMachine F S → ProtocolMachine F S
  place now nonce d m = record m {
    expected_recv_nonce = d.expected;
    reorder_buffer = d.buffer;
    last_recv_advance =
        if nonce == m.expected_recv_nonce && not (nonce == u64_max)
        then now
        else m.last_recv_advance;
  }

  -- A Close frame closes the session at once; three kinds are to be acknowledged.
  unfoldable pub note_kind : FrameKind → ProtocolMachine F S → ProtocolMachine F S
  note_kind kind m = record m {
    state = if is_close kind then OstpState.closed else m.state;
    ack_pending = wants_ack kind || m.ack_pending;
  }

  unfoldable pub nack_cooldown : ProtocolMachine F S → ℕ
  nack_cooldown m = max (rto m.cc / 2) 10_000_000

module _ {F S : Type 0} ⦃f : F64 F⦄ (env : Env S) where
  -- A frame that was delivered before: its acknowledgement may have been lost.
  unfoldable pub answer_duplicate : ℕ → Op (ProtocolMachine F S) ProtocolAction
  answer_duplicate now = do ack_frame ← force_build_ack env now; pure (sent_or_noop ack_frame)

  abbrev pub build_nack : ℕ → Op (ProtocolMachine F S) (Option (List ℕ))
  build_nack now = do
    m ← get
    attempt (build_control_datagram env now 0 FrameKind.nack (to_be_bytes 8 m.expected_recv_nonce))

  -- A frame beyond the reorder window.
  unfoldable pub answer_far : ℕ → Op (ProtocolMachine F S) ProtocolAction
  answer_far now = do nack_frame ← build_nack now; pure (sent_or_noop nack_frame)

  unfoldable pub nack_if_due : ℕ → Op (ProtocolMachine F S) (List ProtocolAction)
  unfolding nack_cooldown
  nack_if_due now = do
    m ← get
    (if leb (nack_cooldown m) (now - m.last_nack_sent)
        then (do
          modify (λ m. record m { last_nack_sent = now })
          nack_frame ← build_nack now
          pure (sent_list nack_frame))
        else pure [])

  -- Decryption, the counters of authenticated datagrams, and the frame inside.
  unfoldable pub open_datagram : ℕ → List ℕ → Op (ProtocolMachine F S) FramedPacket
  open_datagram nonce ciphertext = do
    m ← get
    key ← lift (ok_or m.recv_cipher state)
    plaintext ← lift (decrypt env.aead key nonce ciphertext (to_be_bytes 4 m.session_id))
    modify (λ m. record m {
      authenticated_recv_count = add64 m.authenticated_recv_count 1;
      highest_authenticated_recv_nonce = raise_to nonce m.highest_authenticated_recv_nonce;
    })
    lift (decode_zero_copy env.usize_max plaintext)

  -- What a frame that is in order, or ahead of its turn, brings.
  abbrev pub place_result :
      ℕ
      → Bool
      → Bool
      → List ProtocolAction
      → Op (ProtocolMachine F S) (List ProtocolAction × List ProtocolAction)
  place_result now true exhausted delivered = do guard (not exhausted) crypto; pure ([], delivered)
  place_result now false exhausted delivered = do nacks ← nack_if_due now; pure (nacks, [])

  -- The place of a frame in the sequence: what is sent for it, and what is delivered.
  unfoldable pub sequence :
      ℕ → ℕ → ProtocolAction → Op (ProtocolMachine F S) (List ProtocolAction × List ProtocolAction)
  sequence now nonce action = do
    m ← get
    let d = accept m.max_reorder_buffer nonce action m.expected_recv_nonce m.reorder_buffer
    modify (place now nonce d)
    place_result now (nonce == m.expected_recv_nonce) d.exhausted (payloads d.delivered)

  -- From the frame of an authentic datagram on.
  unfoldable pub accept_packet : ℕ → ℕ → FramedPacket → Op (ProtocolMachine F S) ProtocolAction
  accept_packet now nonce packet = do
    retransmitted ← process_nack now packet
    process_ack now packet
    modify (note_kind packet.header.kind)
    placed ← sequence now nonce (action_of packet)
    ack_frame ← build_ack_if_due env now
    pure (collate (retransmitted ++ (placed.0 ++ (sent_list ack_frame ++ placed.1))))

  unfoldable pub accept_datagram : ℕ → ℕ → List ℕ → Op (ProtocolMachine F S) ProtocolAction
  unfolding accept_packet
  accept_datagram now nonce ciphertext = do
    packet ← open_datagram nonce ciphertext
    accept_packet now nonce packet

  unfoldable pub handle_data_inbound_frame : ℕ → List ℕ → Op (ProtocolMachine F S) ProtocolAction
  handle_data_inbound_frame now raw = do
    m ← get
    guard (leb 12 (length raw)) framing
    let nonce = from_be_bytes (take 8 (drop 4 raw))
    (if ltb nonce m.expected_recv_nonce
        then answer_duplicate now
        else if ltb (add64 m.expected_recv_nonce m.max_reorder) nonce
        then answer_far now
        else accept_datagram now nonce (drop 12 raw))

  abbrev pub resume :
      ℕ
      → List ℕ
      → List ProtocolAction × ProtocolMachine F S
      → Outcome ProtocolAction × ProtocolMachine F S
  resume now raw (recovered, m) =
      ((do result ← handle_data_inbound_frame now raw; pure (put_first recovered result)) m)

  unfoldable pub handle_data_inbound : ℕ → List ℕ → Op (ProtocolMachine F S) ProtocolAction
  handle_data_inbound now raw m = resume now raw (recover_stalled_gap now m)
