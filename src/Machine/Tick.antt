-- ===== src/Machine/Tick.antt =====
-- `handle_tick` of ostp-core/src/protocol.rs: the pending acknowledgement, the eviction of frames that
-- were sent too often, and the retransmission of those that are due.
use ostp.Prelude.{ℕ, ◌/◌, ◌%◌, ◌^◌, max, List, [], ◌∷◌, ◌++◌}
use ostp.External.{F64}
use ostp.Op.{Op, ◌>>=◌, ◌>>◌, pure, get, modify}
use ostp.Congestion.{rto, retransmit_budget}
use ostp.History.{sat_add8, evict_zombies, retransmit, Scan}
use ostp.Machine.{ProtocolMachine, Env, ProtocolAction, collate}
use ostp.Machine.Send.{build_ack_if_due}
use ostp.Machine.Receive.{sent_list}

abbrev pub datagrams : List (List ℕ) → List ProtocolAction
datagrams [] = []
datagrams (bytes ∷ l) = ProtocolAction.send_datagram bytes ∷ datagrams l

module _ {F S : Type 0} ⦃f : F64 F⦄ where
  -- In milliseconds: the adaptive timeout, and no less than the configured one.
  unfoldable pub base_rto_ms : ProtocolMachine F S → ℕ
  base_rto_ms m = max (max (rto m.cc) m.rto / 1_000_000) 1 % 2 ^ 64

  unfoldable pub evict : ProtocolMachine F S → ProtocolMachine F S
  evict m = record m { sent_history = evict_zombies (sat_add8 m.max_retries 2) m.sent_history }

  unfoldable pub scan : ℕ → ProtocolMachine F S → Scan
  unfolding base_rto_ms
  scan now m = retransmit now (base_rto_ms m) (retransmit_budget m.cc) m.sent_history

  unfoldable pub handle_tick : Env S → ℕ → Op (ProtocolMachine F S) ProtocolAction
  handle_tick env now = do
    ack_frame ← build_ack_if_due env now
    modify evict
    m ← get
    let s = scan now m
    modify (λ m. record m { sent_history = s.frames })
    pure (collate (sent_list ack_frame ++ datagrams s.sent))
