-- ===== src/Machine/Steady/Handling.antt =====
-- The operations of Machine/Tick and Machine/Events keep what the changes they make keep.
use ostp.Prelude.{ℕ, ◌+◌, ◌≡◌, List, refl, []}
use ostp.External.{F64}
use ostp.Op.{Op, ◌>>=◌}
use ostp.Op.Keeps.{
  Keeps, bind-Keeps, bind-into, get-keeps, modify-keeps, lift-keeps, guard-keeps,
  panic_unless-keeps,
}
use ostp.Framing.{FrameKind}
use ostp.Machine.{ProtocolMachine, Env, OstpState, OstpEvent}
use ostp.Machine.Send.{wrap_datagram_handshake}
use ostp.Machine.Steady.Sending.{build_ack_if_due-Keeps, build_tracked_datagram-Keeps}
use ostp.Machine.Steady.Receiving.{handle_data_inbound-Keeps}
use ostp.Machine.Events.{
  noise_read, noise_write, respond, handle_handshake_inbound, inbound_at, handle_inbound, initiate,
  send_tracked, dispatch, on_event,
}
use ostp.Noise.{NoiseRole, write_handshake, read_handshake}
use ostp.Machine.Tick.{handle_tick}
use ostp.Machine.Steady.{Sends, Hears, Shakes, Receives, Moves}

module _ {F S : Type 0} ⦃f : F64 F⦄ (env : Env S) (I : ProtocolMachine F S → Type 0)
    (shakes : Shakes I) where
  wrap_datagram_handshake-Keeps : (payload : List ℕ) → Keeps I (wrap_datagram_handshake env payload)
  unfolding wrap_datagram_handshake
  wrap_datagram_handshake-Keeps payload m h =
      get-keeps I _ _
        (panic_unless-keeps I _ _ _ h (modify-keeps I _ _ _ (shakes.draw m (m.draws + 2) h)))

  noise_write-Keeps : Keeps I (noise_write env)
  unfolding noise_write write_handshake
  noise_write-Keeps m h = shakes.shake m _ h

  noise_read-Keeps : (input : List ℕ) → Keeps I (noise_read env input)
  unfolding noise_read read_handshake
  noise_read-Keeps input m h = shakes.shake m _ h

  greet-Keeps {κ} :
      {B : Type κ} (k : List ℕ → Op (ProtocolMachine F S) B)
      → ((a : List ℕ) → Keeps I (k a))
      → Keeps I (noise_write env >>= λ message. wrap_datagram_handshake env message >>= k)
  greet-Keeps k last =
      bind-Keeps I _ _ noise_write-Keeps
        λ message. bind-Keeps I _ _ (wrap_datagram_handshake-Keeps message) last

  respond-Keeps : (role : NoiseRole) → Keeps I (respond env role)
  respond-Keeps NoiseRole.initiator m h = h
  respond-Keeps NoiseRole.responder m h = greet-Keeps _ (λ datagram m h. h) m h

abbrev Handshaking : {F S : Type 0} → (ProtocolMachine F S → Type 0) → ProtocolMachine F S → Type 0
Handshaking I m = I m × (m.state ≡ OstpState.handshaking)

Handshaking-Shakes :
    {F S : Type 0} ⦃f : F64 F⦄ {I : ProtocolMachine F S → Type 0}
    → Shakes I
    → Shakes (Handshaking I)
Handshaking-Shakes shakes = record {
  draw = λ m n (h, e). (shakes.draw m n h, e);
  shake = λ m noise (h, e). (shakes.shake m noise h, e);
}

module _ {F S : Type 0} ⦃f : F64 F⦄ (env : Env S) (I : ProtocolMachine F S → Type 0)
    (sends : Sends I) (hears : Hears I) (receives : Receives I) (shakes : Shakes I)
    (moves : Moves I) where
  handle_handshake_inbound-keeps :
      (raw : List ℕ) (m : ProtocolMachine F S)
      → I m
      → m.state ≡ OstpState.handshaking
      → I ((handle_handshake_inbound env raw m).1)
  unfolding handle_handshake_inbound
  handle_handshake_inbound-keeps raw m h e =
      let J = Handshaking I in
      let weaken : (m : ProtocolMachine F S) → J m → I m = λ m h. h.0 in
      let greeted = Handshaking-Shakes shakes in
      guard-keeps I _ _ _ _ h λ long. guard-keeps I _ _ _ _ h λ whole.
        bind-into J I weaken _ _ (noise_read-Keeps env J greeted _)
          (λ payload m h. get-keeps I _ _ (
            bind-into J I weaken _ _ (respond-Keeps env J greeted m.role)
              (λ response m h. get-keeps I _ _ (
                lift-keeps I _ _ _ (h.0)
                  λ split. modify-keeps I _ _ _ (moves.establish _ _ m (h.1) (h.0))))
              m h))
          m (h, e)

  inbound_at-keeps :
      (now : ℕ) (raw : List ℕ) (s : OstpState) (m : ProtocolMachine F S)
      → m.state ≡ s
      → I m
      → I ((inbound_at env now raw s m).1)
  inbound_at-keeps now raw OstpState.handshaking m e h = handle_handshake_inbound-keeps raw m h e
  inbound_at-keeps now raw OstpState.established m e h =
      handle_data_inbound-Keeps env I sends hears receives now raw m h
  inbound_at-keeps now raw _ m e h = h

  handle_inbound-Keeps : (now : ℕ) (raw : List ℕ) → Keeps I (handle_inbound env now raw)
  unfolding handle_inbound
  handle_inbound-Keeps now raw m h = get-keeps I _ _ (
      guard-keeps I _ _ _ _ h
        λ long. guard-keeps I _ _ _ _ h λ ours. inbound_at-keeps now _ m.state m refl h)

  handle_tick-Keeps : (now : ℕ) → Keeps I (handle_tick env now)
  unfolding handle_tick
  handle_tick-Keeps now = bind-Keeps I _ _ (build_ack_if_due-Keeps env I sends now) λ frame m h.
      modify-keeps I _ _ _
        (get-keeps I _ _ (modify-keeps I _ _ _ (receives.retry now _ (receives.give_up m h))))

  send_tracked-Keeps :
      (now stream_id : ℕ) (kind : FrameKind) (payload : List ℕ)
      → Keeps I (send_tracked env now stream_id kind payload)
  send_tracked-Keeps now stream_id kind payload =
      bind-Keeps I _ _ (build_tracked_datagram-Keeps env I sends now stream_id kind payload)
        λ datagram m h. h

  initiate-keeps :
      (role : NoiseRole) (m : ProtocolMachine F S)
      → m.state ≡ OstpState.init
      → I m
      → I ((initiate env role m).1)
  initiate-keeps NoiseRole.initiator m e h =
      modify-keeps I _ _ _ (greet-Keeps env I shakes _ (λ datagram m h. h) _ (moves.begin m e h))
  initiate-keeps NoiseRole.responder m e h = modify-keeps I _ _ _ (moves.begin m e h)

  dispatch-keeps :
      (now : ℕ) (role : NoiseRole) (s : OstpState) (event : OstpEvent) (m : ProtocolMachine F S)
      → m.state ≡ s
      → I m
      → I ((dispatch env now role s event m).1)
  unfolding dispatch
  dispatch-keeps now role OstpState.init OstpEvent.start m e h = initiate-keeps role m e h
  dispatch-keeps now role OstpState.init (OstpEvent.inbound raw) m e h =
      modify-keeps I _ _ _ (handle_inbound-Keeps now raw _ (moves.begin m e h))
  dispatch-keeps now role OstpState.handshaking (OstpEvent.inbound raw) m e h =
      handle_inbound-Keeps now raw m h
  dispatch-keeps now role OstpState.established (OstpEvent.outbound stream_id app_data) m e h =
      send_tracked-Keeps now stream_id FrameKind.data_frame app_data m h
  dispatch-keeps now role OstpState.established (OstpEvent.inbound raw) m e h =
      handle_inbound-Keeps now raw m h
  dispatch-keeps now role OstpState.established OstpEvent.close m e h =
      modify-keeps I _ _ _ (send_tracked-Keeps now 0 FrameKind.close [] _ (moves.start_close m e h))
  dispatch-keeps now role OstpState.closing (OstpEvent.inbound raw) m e h =
      handle_inbound-Keeps now raw m h
  dispatch-keeps now role OstpState.established OstpEvent.tick m e h = handle_tick-Keeps now m h
  dispatch-keeps now role OstpState.closing OstpEvent.tick m e h = handle_tick-Keeps now m h
  dispatch-keeps now role OstpState.init OstpEvent.close m e h =
      modify-keeps I _ _ _ (moves.finish m h)
  dispatch-keeps now role OstpState.handshaking OstpEvent.close m e h =
      modify-keeps I _ _ _ (moves.finish m h)
  dispatch-keeps now role OstpState.closing OstpEvent.close m e h =
      modify-keeps I _ _ _ (moves.finish m h)
  dispatch-keeps now role _ _ m e h = h

  pub on_event-Keeps : (now : ℕ) (event : OstpEvent) → Keeps I (on_event env now event)
  unfolding on_event
  on_event-Keeps now event m h = dispatch-keeps now m.role m.state event m refl h
