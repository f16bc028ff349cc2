-- ===== src/Machine/Send.antt =====
-- The sending half of ostp-core/src/protocol.rs: handshake datagrams, data and control datagrams,
-- acknowledgements.
pub mod Datagram
use ostp.Prelude.{
  ℕ, ◌+◌, ◌-◌, ◌%◌, ◌^◌, Bool, true, false, not, ◌||◌, Option, none, some, List, [], ◌∷◌, ◌++◌,
  length, ltb, leb, ◌==◌, if◌then◌else◌, u64_max, to_be_bytes,
}
use ostp.External.{F64}
use ostp.Outcome.{ok_or, state, crypto}
use ostp.Op.{Op, ◌>>=◌, ◌>>◌, pure, get, modify, lift, guard, panic_unless, some_or_panic}
use ostp.Noise.{encrypt}
use ostp.Congestion.{on_send}
use ostp.Framing.{FrameKind, FramedPacket, encode}
use ostp.Framing.Padding.{build_padding}
use ostp.Obfuscation.{obfuscate_packet_inplace}
use ostp.Acks.{build_ack_payload}
use ostp.History.{push_capped}
use ostp.Machine.{ProtocolMachine, Env}

abbrev pub keys : {A : Type 0} → List (ℕ × A) → List ℕ
keys [] = []
keys ((k, a) ∷ m) = k ∷ keys m

abbrev pub packet_of : ℕ → FrameKind → List ℕ → List ℕ → FramedPacket
packet_of stream_id kind payload padding = record {
  header = record {
    version = 1;
    kind = kind;
    stream_id = stream_id;
    payload_len = length payload % 2 ^ 32;
    pad_len = length padding % 2 ^ 16;
  };
  payload = payload;
  padding = padding;
}

module _ {F S : Type 0} ⦃f : F64 F⦄ where
  unfoldable pub push_sent_frame : ℕ → ℕ → List ℕ → Bool → ProtocolMachine F S → ProtocolMachine F S
  push_sent_frame now nonce bytes is_retransmittable m = record m {
    cc = if is_retransmittable then on_send now (length bytes) m.cc else m.cc;
    sent_history =
        push_capped m.max_sent_history
          (record {
            nonce = nonce;
            bytes = bytes;
            last_sent = now;
            retries = 0;
            is_retransmittable = is_retransmittable;
          })
          m.sent_history;
  }

module _ {F S : Type 0} ⦃f : F64 F⦄ (env : Env S) where
  -- `gen_range` panics on an empty range.
  unfoldable pub wrap_datagram_handshake : List ℕ → Op (ProtocolMachine F S) (List ℕ)
  wrap_datagram_handshake noise_payload = do
    m ← get
    panic_unless (leb m.handshake_pad_min m.handshake_pad_max)
    let pad_len = env.rng.gen_range m.draws m.handshake_pad_min m.handshake_pad_max
    let pad = env.rng.fill (m.draws + 1) pad_len
    modify (λ m. record m { draws = m.draws + 2 })
    let noise_len = length noise_payload % 2 ^ 16
    let out = to_be_bytes 4 m.session_id ++ (to_be_bytes 2 noise_len ++ (noise_payload ++ pad))
    pure (obfuscate_packet_inplace env.hash m.obfuscation_key true out)

  unfoldable pub build_datagram :
      ℕ → ℕ → FrameKind → List ℕ → Bool → Op (ProtocolMachine F S) (List ℕ)
  build_datagram now stream_id kind payload is_retransmittable = do
    m ← get
    padding ← lift (some_or_panic (build_padding env.rng m.draws m.padder (length payload)))
    let plaintext =
        encode (env.rng.high_byte (m.draws + 2)) (env.rng.low_byte (m.draws + 2))
          (packet_of stream_id kind payload padding)
    modify (λ m. record m { draws = m.draws + 3 })
    key ← lift (ok_or m.send_cipher state)
    let nonce = m.send_nonce
    guard (not (nonce == u64_max)) crypto
    modify (λ m. record m { send_nonce = nonce + 1 })
    let session_id_bytes = to_be_bytes 4 m.session_id
    ciphertext ← lift (encrypt env.aead key nonce plaintext session_id_bytes)
    let final_bytes =
        obfuscate_packet_inplace env.hash m.obfuscation_key false
          (session_id_bytes ++ (to_be_bytes 8 nonce ++ ciphertext))
    modify (push_sent_frame now nonce final_bytes is_retransmittable)
    pure final_bytes

  unfoldable pub build_tracked_datagram :
      ℕ → ℕ → FrameKind → List ℕ → Op (ProtocolMachine F S) (List ℕ)
  build_tracked_datagram now stream_id kind payload = build_datagram now stream_id kind payload true

  unfoldable pub build_control_datagram :
      ℕ → ℕ → FrameKind → List ℕ → Op (ProtocolMachine F S) (List ℕ)
  build_control_datagram now stream_id kind payload =
      build_datagram now stream_id kind payload false

  abbrev pub ack_or_clear : ℕ → List ℕ → Op (ProtocolMachine F S) (Option (List ℕ))
  ack_or_clear now [] = do modify (λ m. record m { ack_pending = false }); pure none
  ack_or_clear now (b ∷ payload) = do
    frame ← build_control_datagram now 0 FrameKind.ack (b ∷ payload)
    modify (λ m. record m { ack_pending = false; last_ack_sent = now })
    pure (some frame)

  unfoldable pub force_build_ack : ℕ → Op (ProtocolMachine F S) (Option (List ℕ))
  force_build_ack now = do
    m ← get
    ack_or_clear now (build_ack_payload m.expected_recv_nonce (keys m.reorder_buffer))

  unfoldable pub build_ack_if_due : ℕ → Op (ProtocolMachine F S) (Option (List ℕ))
  unfolding force_build_ack
  build_ack_if_due now = do
    m ← get
    (if not m.ack_pending || ltb (now - m.last_ack_sent) m.ack_delay
        then pure none
        else force_build_ack now)
