-- ===== src/Machine/Feedback.antt =====
-- What the peer's Ack and Nack frames do in ostp-core/src/protocol.rs.
use ostp.Prelude.{
  ℕ, Bool, true, false, ◌&&◌, Option, none, some, List, [], ◌∷◌, length, take, ltb, leb,
  if◌then◌else◌, from_be_bytes,
}
use ostp.External.{F64}
use ostp.Outcome.{Outcome, ok}
use ostp.Op.{Op, ◌>>=◌, pure, get, modify, lift}
use ostp.Congestion.{CongestionController}
use ostp.Congestion.Growth.{on_ack, on_ack_no_rtt, on_loss}
use ostp.Framing.{FrameKind, FramedPacket}
use ostp.Acks.{parse_ack_ranges}
use ostp.History.{SentFrame, lookup_sent_frame, acked_bytes, min_rtt_of, retain_unacked}
use ostp.Machine.{ProtocolMachine, ProtocolAction}

abbrev pub is_nack : FrameKind → Bool
is_nack FrameKind.nack = true
is_nack _ = false

abbrev pub is_ack : FrameKind → Bool
is_ack FrameKind.ack = true
is_ack _ = false

module _ {F : Type 0} ⦃f : F64 F⦄ where
  abbrev pub notify : ℕ → ℕ → Option ℕ → CongestionController F → CongestionController F
  notify now acked none c = on_ack_no_rtt now acked c
  notify now acked (some rtt) c = on_ack now acked rtt c

module _ {F S : Type 0} ⦃f : F64 F⦄ where
  unfoldable pub drop_acked_frames : ℕ → List (ℕ × ℕ) → ProtocolMachine F S → ProtocolMachine F S
  drop_acked_frames now ranges m =
      let acked = acked_bytes ranges m.sent_history in
      let min_rtt = min_rtt_of now ranges none m.sent_history in
      record m {
        sent_history = retain_unacked ranges m.sent_history;
        cc = if ltb 0 acked then notify now acked min_rtt m.cc else m.cc;
      }

  -- Fast retransmission. A nonce that is not in the history counts as 1200 bytes lost.
  abbrev pub answer_nack :
      ℕ
      → Option (List ℕ × List SentFrame)
      → ProtocolMachine F S
      → Outcome (List ProtocolAction) × ProtocolMachine F S
  answer_nack now none m = (ok [], record m { cc = on_loss now 1200 m.cc })
  answer_nack now (some (bytes, frames)) m = (
    ok (ProtocolAction.send_datagram bytes ∷ []),
    record m { cc = on_loss now (length bytes) m.cc; sent_history = frames },
  )

  unfoldable pub process_nack : ℕ → FramedPacket → Op (ProtocolMachine F S) (List ProtocolAction)
  process_nack now p = do
    m ← get
    (if is_nack p.header.kind && leb 8 (length p.payload)
        then answer_nack now
            (lookup_sent_frame now (from_be_bytes (take 8 p.payload)) m.sent_history)
        else pure [])

  unfoldable pub process_ack : ℕ → FramedPacket → Op (ProtocolMachine F S) (Unit {0})
  process_ack now p =
      if is_ack p.header.kind
      then (do ranges ← lift (parse_ack_ranges p.payload); modify (drop_acked_frames now ranges))
      else pure tt
