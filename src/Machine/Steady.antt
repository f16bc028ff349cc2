-- ===== src/Machine/Steady.antt =====
-- Predicates that every change of state in ostp-core/src/protocol.rs keeps: one law for each
-- change, and the handlers of the session keep what its changes keep.
pub mod Sending
pub mod Receiving
pub mod Handling
use ostp.Prelude.{
  ℕ, ◌+◌, ◌≤◌, ◌≡◌, ◌≢◌, Bool, true, false, Option, none, some, List, refl, sym, subst, not, ◌==◌,
  Bool-cases, ◌⊎◌, inl, inr, u64_max, arith,
}
use ostp.External.{F64}
use ostp.Op.{Op}
use ostp.Op.Keeps.{
  Keeps, bind-Keeps, get-keeps, modify-keeps, lift-keeps, guard-keeps, panic_unless-keeps,
  attempt-Keeps,
}
use ostp.Noise.{NoiseSession}
use ostp.Congestion.Growth.{on_loss}
use ostp.Framing.{FrameKind}
use ostp.History.{SentFrame, lookup_sent_frame}
use ostp.Reorder.{accept}
use ostp.Machine.{ProtocolMachine, Env, ProtocolAction, OstpState}
use ostp.Machine.Send.{
  push_sent_frame, wrap_datagram_handshake, build_datagram, build_tracked_datagram,
  build_control_datagram, force_build_ack, build_ack_if_due,
}
use ostp.Machine.Gap.{jump}
use ostp.Machine.Feedback.{drop_acked_frames}
use ostp.Machine.Receive.{place, note_kind, raise_to}
use ostp.Machine.Tick.{evict, scan}

module _ {F S : Type 0} ⦃f : F64 F⦄ where
  -- The changes made while a datagram is built.
  pub record Sends (I : ProtocolMachine F S → Type 0) : Type 0 where
    pub draw : (m : ProtocolMachine F S) (n : ℕ) → I m → I (record m { draws = n })
    pub count :
        (m : ProtocolMachine F S)
        → I m
        → m.send_nonce ≢ u64_max
        → I (record m { send_nonce = m.send_nonce + 1 })
    pub send :
        (now : ℕ) (bytes : List ℕ) (tracked : Bool) (m : ProtocolMachine F S)
        → I m
        → m.send_nonce ≢ u64_max
        → I (
            push_sent_frame now m.send_nonce bytes tracked
              (record m { send_nonce = m.send_nonce + 1 }))
    pub acknowledge :
        (pending : Bool) (stamp : ℕ) (m : ProtocolMachine F S)
        → I m
        → I (record m { ack_pending = pending; last_ack_sent = stamp })

  -- The changes made while a handshake datagram is handled, before its keys are known.
  pub record Shakes (I : ProtocolMachine F S → Type 0) : Type 0 where
    pub draw : (m : ProtocolMachine F S) (n : ℕ) → I m → I (record m { draws = n })
    pub shake :
        (m : ProtocolMachine F S) (noise : NoiseSession S) → I m → I (record m { noise = noise })

  -- The changes made by what a data datagram says, before it has its place in the sequence.
  pub record Hears (I : ProtocolMachine F S → Type 0) : Type 0 where
    pub authenticate :
        (count : ℕ) (highest : Option ℕ) (m : ProtocolMachine F S)
        → I m
        → I (record m {
          authenticated_recv_count = count;
          highest_authenticated_recv_nonce = highest;
        })
    pub lose :
        (now bytes : ℕ) (m : ProtocolMachine F S)
        → I m
        → I (record m { cc = on_loss now bytes m.cc })
    pub look_up :
        (now nonce : ℕ) (m : ProtocolMachine F S) (bytes : List ℕ) (frames : List SentFrame)
        → lookup_sent_frame now nonce m.sent_history ≡ some (bytes, frames)
        → I m
        → I (record m { sent_history = frames })
    pub drop_acked :
        (now : ℕ) (ranges : List (ℕ × ℕ)) (m : ProtocolMachine F S)
        → I m
        → I (drop_acked_frames now ranges m)
    pub note : (kind : FrameKind) (m : ProtocolMachine F S) → I m → I (note_kind kind m)

  -- Those that follow when the datagram is authentic.
  pub record Heeds (I : ProtocolMachine F S → Type 0) : Type 0 where
    pub lose :
        (now bytes : ℕ) (m : ProtocolMachine F S)
        → I m
        → I (record m { cc = on_loss now bytes m.cc })
    pub look_up :
        (now nonce : ℕ) (m : ProtocolMachine F S) (bytes : List ℕ) (frames : List SentFrame)
        → lookup_sent_frame now nonce m.sent_history ≡ some (bytes, frames)
        → I m
        → I (record m { sent_history = frames })
    pub drop_acked :
        (now : ℕ) (ranges : List (ℕ × ℕ)) (m : ProtocolMachine F S)
        → I m
        → I (drop_acked_frames now ranges m)
    pub note : (kind : FrameKind) (m : ProtocolMachine F S) → I m → I (note_kind kind m)

  -- The changes of the receive sequence, and those on a tick.
  pub record Receives (I : ProtocolMachine F S → Type 0) : Type 0 where
    pub skip : (now : ℕ) (m : ProtocolMachine F S) → I m → I (jump now m)
    pub insert :
        (now nonce : ℕ) (action : ProtocolAction) (m : ProtocolMachine F S)
        → m.expected_recv_nonce ≤ nonce
        → I m
        → I (
            place now nonce
              (accept m.max_reorder_buffer nonce action m.expected_recv_nonce m.reorder_buffer)
              m)
    pub nacked : (now : ℕ) (m : ProtocolMachine F S) → I m → I (record m { last_nack_sent = now })
    pub give_up : (m : ProtocolMachine F S) → I m → I (evict m)
    pub retry :
        (now : ℕ) (m : ProtocolMachine F S)
        → I m
        → I (record m { sent_history = (scan now m).frames })

  -- The changes of the state of the session.
  pub record Moves (I : ProtocolMachine F S → Type 0) : Type 0 where
    pub begin :
        (m : ProtocolMachine F S)
        → m.state ≡ OstpState.init
        → I m
        → I (record m { state = OstpState.handshaking })
    pub establish :
        (send_key recv_key : List ℕ) (m : ProtocolMachine F S)
        → m.state ≡ OstpState.handshaking
        → I m
        → I (record m {
          send_cipher = some send_key;
          recv_cipher = some recv_key;
          state = OstpState.established;
        })
    pub start_close :
        (m : ProtocolMachine F S)
        → m.state ≡ OstpState.established
        → I m
        → I (record m { state = OstpState.closing })
    pub finish : (m : ProtocolMachine F S) → I m → I (record m { state = OstpState.closed })
