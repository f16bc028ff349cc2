-- ===== src/Machine/Events.antt =====
-- `on_event`, `handle_inbound` and `handle_handshake_inbound` of ostp-core/src/protocol.rs: the states
-- of a session and the handshake.
use ostp.Prelude.{
  ℕ, ◌+◌, Bool, true, false, Option, none, some, List, [], length, take, drop, leb, ◌==◌,
  from_be_bytes,
}
use ostp.External.{F64}
use ostp.Outcome.{Outcome, state, framing}
use ostp.Op.{Op, ◌>>=◌, ◌>>◌, pure, get, modify, lift, guard}
use ostp.Noise.{NoiseRole, NoiseSession, write_handshake, read_handshake, raw_split}
use ostp.Framing.{FrameKind}
use ostp.Obfuscation.{deobfuscate_packet_inplace}
use ostp.Machine.{ProtocolMachine, Env, ProtocolAction, OstpState, OstpEvent}
use ostp.Machine.Send.{wrap_datagram_handshake, build_tracked_datagram}
use ostp.Machine.Receive.{handle_data_inbound}
use ostp.Machine.Tick.{handle_tick}

abbrev pub in_handshake : OstpState → Bool
in_handshake OstpState.init = true
in_handshake OstpState.handshaking = true
in_handshake _ = false

module _ {F S : Type 0} ⦃f : F64 F⦄ (env : Env S) where
  abbrev pub set_state : OstpState → Op (ProtocolMachine F S) (Unit {0})
  set_state s = modify (λ m. record m { state = s })

  abbrev pub with_noise :
      ProtocolMachine F S
      → Outcome (List ℕ) × NoiseSession S
      → Outcome (List ℕ) × ProtocolMachine F S
  with_noise m (message, noise) = (message, record m { noise = noise })

  -- The methods of the Noise session of a machine, with buffers of 1024 bytes.
  unfoldable pub noise_write : Op (ProtocolMachine F S) (List ℕ)
  noise_write m = with_noise m (write_handshake env.snow m.handshake_payload 1024 m.noise)

  unfoldable pub noise_read : List ℕ → Op (ProtocolMachine F S) (List ℕ)
  noise_read input m = with_noise m (read_handshake env.snow input 1024 m.noise)

  abbrev pub respond : NoiseRole → Op (ProtocolMachine F S) (Option (List ℕ))
  respond NoiseRole.initiator = pure none
  respond NoiseRole.responder = do
    message ← noise_write
    datagram ← wrap_datagram_handshake env message
    pure (some datagram)

  unfoldable pub handle_handshake_inbound : List ℕ → Op (ProtocolMachine F S) ProtocolAction
  handle_handshake_inbound raw = do
    guard (leb 6 (length raw)) framing
    let noise_len = from_be_bytes (take 2 (drop 4 raw))
    guard (leb (6 + noise_len) (length raw)) framing
    payload ← noise_read (take noise_len (drop 6 raw))
    m ← get
    response ← respond m.role
    m ← get
    split ← lift (raw_split env.snow m.role m.noise)
    modify (λ m. record m {
      send_cipher = some split.0;
      recv_cipher = some split.1;
      state = OstpState.established;
    })
    pure (ProtocolAction.handshake_payload payload response)

  abbrev pub inbound_at : ℕ → List ℕ → OstpState → Op (ProtocolMachine F S) ProtocolAction
  inbound_at now raw OstpState.handshaking = handle_handshake_inbound raw
  inbound_at now raw OstpState.established = handle_data_inbound env now raw
  inbound_at now raw _ = pure ProtocolAction.noop

  unfoldable pub handle_inbound : ℕ → List ℕ → Op (ProtocolMachine F S) ProtocolAction
  handle_inbound now datagram = do
    m ← get
    let raw = deobfuscate_packet_inplace env.hash m.obfuscation_key (in_handshake m.state) datagram
    guard (leb 4 (length raw)) framing
    guard (from_be_bytes (take 4 raw) == m.session_id) state
    inbound_at now raw m.state

  abbrev pub initiate : NoiseRole → Op (ProtocolMachine F S) ProtocolAction
  initiate NoiseRole.initiator = do
    set_state OstpState.handshaking
    message ← noise_write
    datagram ← wrap_datagram_handshake env message
    pure (ProtocolAction.send_datagram datagram)
  initiate NoiseRole.responder = do set_state OstpState.handshaking; pure ProtocolAction.noop

  abbrev pub send_tracked : ℕ → ℕ → FrameKind → List ℕ → Op (ProtocolMachine F S) ProtocolAction
  send_tracked now stream_id kind payload = do
    datagram ← build_tracked_datagram env now stream_id kind payload
    pure (ProtocolAction.send_datagram datagram)

  -- The arms of the match, in the order of the states.
  unfoldable pub dispatch :
      ℕ → NoiseRole → OstpState → OstpEvent → Op (ProtocolMachine F S) ProtocolAction
  dispatch now role OstpState.init OstpEvent.start = initiate role
  dispatch now role OstpState.init (OstpEvent.inbound raw) = do
    set_state OstpState.handshaking
    handle_inbound now raw
  dispatch now role OstpState.handshaking (OstpEvent.inbound raw) = handle_inbound now raw
  dispatch now role OstpState.handshaking OstpEvent.start = pure ProtocolAction.noop
  dispatch now role OstpState.established (OstpEvent.outbound stream_id app_data) =
      send_tracked now stream_id FrameKind.data_frame app_data
  dispatch now role OstpState.established (OstpEvent.inbound raw) = handle_inbound now raw
  dispatch now role OstpState.established OstpEvent.close = do
    set_state OstpState.closing
    send_tracked now 0 FrameKind.close []
  dispatch now role OstpState.closing (OstpEvent.inbound raw) = handle_inbound now raw
  dispatch now role OstpState.established OstpEvent.tick = handle_tick env now
  dispatch now role OstpState.closing OstpEvent.tick = handle_tick env now
  dispatch now role OstpState.closed event = pure ProtocolAction.noop
  dispatch now role s OstpEvent.close = do set_state OstpState.closed; pure ProtocolAction.noop
  dispatch now role s event = pure ProtocolAction.noop

  unfoldable pub on_event : ℕ → OstpEvent → Op (ProtocolMachine F S) ProtocolAction
  on_event now event m = dispatch now m.role m.state event m
