-- ===== src/Machine/Session/States.antt =====
-- The states that a session of ostp-core/src/protocol.rs goes through.
use ostp.Prelude.{ℕ, ◌≡◌, refl, sym, subst, Bool, true, false, List, if◌then◌else◌}
use ostp.External.{F64}
use ostp.Outcome.{Outcome, ok, err, panic, framing, ProtocolError}
use ostp.Op.{◌>>=◌, guard}
use ostp.Obfuscation.{deobfuscate_packet_inplace}
use ostp.Machine.{
  OstpEvent, ProtocolMachine, ProtocolAction, OstpState, Env, on_path_change, set_session_keys,
}
use ostp.Machine.Events.{on_event, dispatch, handle_inbound, inbound_at, in_handshake}
use ostp.Machine.Send.{push_sent_frame}
use ostp.Machine.Feedback.{drop_acked_frames}
use ostp.Machine.Receive.{note_kind, is_close}
use ostp.Machine.Tick.{evict, scan}
use ostp.Machine.Session.{Steady, Input, run, run-keeps}

-- The order of the states: never back.
abbrev pub can_become : OstpState → OstpState → Bool
can_become OstpState.init t = true
can_become OstpState.handshaking OstpState.init = false
can_become OstpState.handshaking t = true
can_become OstpState.established OstpState.init = false
can_become OstpState.established OstpState.handshaking = false
can_become OstpState.established t = true
can_become OstpState.closing OstpState.closing = true
can_become OstpState.closing OstpState.closed = true
can_become OstpState.closing t = false
can_become OstpState.closed OstpState.closed = true
can_become OstpState.closed t = false

can_become_refl : (s : OstpState) → can_become s s ≡ true
can_become_refl OstpState.init = refl
can_become_refl OstpState.handshaking = refl
can_become_refl OstpState.established = refl
can_become_refl OstpState.closing = refl
can_become_refl OstpState.closed = refl

to_closed : (s : OstpState) → can_become s OstpState.closed ≡ true
to_closed OstpState.init = refl
to_closed OstpState.handshaking = refl
to_closed OstpState.established = refl
to_closed OstpState.closing = refl
to_closed OstpState.closed = refl

-- From a state to the next one.
after_init :
    (s t : OstpState)
    → t ≡ OstpState.init
    → can_become s t ≡ true
    → can_become s OstpState.handshaking ≡ true
after_init s t e h = from_init s (subst (λ t. can_become s t ≡ true) e h)
  where
    from_init :
        (s : OstpState)
        → can_become s OstpState.init ≡ true
        → can_become s OstpState.handshaking ≡ true
    from_init OstpState.init h = refl
    from_init OstpState.handshaking h = refl
    from_init OstpState.established h = absurd cc
    from_init OstpState.closing h = absurd cc
    from_init OstpState.closed h = absurd cc

after_handshaking :
    (s t : OstpState)
    → t ≡ OstpState.handshaking
    → can_become s t ≡ true
    → can_become s OstpState.established ≡ true
after_handshaking s t e h = from_handshaking s (subst (λ t. can_become s t ≡ true) e h)
  where
    from_handshaking :
        (s : OstpState)
        → can_become s OstpState.handshaking ≡ true
        → can_become s OstpState.established ≡ true
    from_handshaking OstpState.init h = refl
    from_handshaking OstpState.handshaking h = refl
    from_handshaking OstpState.established h = refl
    from_handshaking OstpState.closing h = absurd cc
    from_handshaking OstpState.closed h = absurd cc

after_established :
    (s t : OstpState)
    → t ≡ OstpState.established
    → can_become s t ≡ true
    → can_become s OstpState.closing ≡ true
after_established s t e h = from_established s (subst (λ t. can_become s t ≡ true) e h)
  where
    from_established :
        (s : OstpState)
        → can_become s OstpState.established ≡ true
        → can_become s OstpState.closing ≡ true
    from_established OstpState.init h = refl
    from_established OstpState.handshaking h = refl
    from_established OstpState.established h = refl
    from_established OstpState.closing h = absurd cc
    from_established OstpState.closed h = absurd cc

note-state :
    (s t : OstpState) (b : Bool)
    → can_become s t ≡ true
    → can_become s (if b then OstpState.closed else t) ≡ true
note-state s t true h = to_closed s
note-state s t false h = h

-- Nothing to send or deliver.
abbrev pub IsNothing : Outcome ProtocolAction → Type 0
IsNothing (ok ProtocolAction.noop) = Unit
IsNothing (ok _) = ⊥
IsNothing (err e) = Unit
IsNothing panic = Unit

abbrev pub IsIgnored :
    {F S : Type 0} → ProtocolMachine F S → Outcome ProtocolAction × ProtocolMachine F S → Type 0
IsIgnored m r = (r.1 ≡ m) × IsNothing (r.0)

module _ {F S : Type 0} ⦃f : F64 F⦄ where
  Ordered-Steady : (s : OstpState) → Steady {F = F} {S = S} (λ m. can_become s m.state ≡ true)
  unfolding drop_acked_frames note_kind evict scan on_path_change set_session_keys push_sent_frame
  Ordered-Steady s = record {
    sends = record {
      draw = λ m n h. h;
      count = λ m h fresh. h;
      send = λ now bytes tracked m h fresh. h;
      acknowledge = λ pending stamp m h. h;
    };
    hears = record {
      authenticate = λ count highest m h. h;
      lose = λ now bytes m h. h;
      look_up = λ now nonce m bytes frames e h. h;
      drop_acked = λ now ranges m h. h;
      note = λ kind m h. note-state s m.state (is_close kind) h;
    };
    receives = record {
      skip = λ now m h. h;
      insert = λ now nonce action m le h. h;
      nacked = λ now m h. h;
      give_up = λ m h. h;
      retry = λ now m h. h;
    };
    shakes = record { draw = λ m n h. h; shake = λ m noise h. h };
    moves = record {
      begin = λ m e h. after_init s m.state e h;
      establish = λ send_key recv_key m e h. after_handshaking s m.state e h;
      start_close = λ m e h. after_established s m.state e h;
      finish = λ m h. to_closed s;
    };
    change_path = λ now m h. h;
    rekey = λ session_id key m h. h;
  }

  -- A session never goes back: whatever happens, its state afterwards is the same or one that comes
  -- later in the order init, handshaking, established, closing, closed.
  pub states_in_order :
      (env : Env S) (inputs : List Input) (m : ProtocolMachine F S)
      → can_become m.state ((run env inputs m).state) ≡ true
  states_in_order env inputs m =
      run-keeps env (λ n. can_become m.state n.state ≡ true) (Ordered-Steady m.state) inputs m
        (can_become_refl m.state)

  closing_guards :
      (env : Env S) (now : ℕ) (raw : List ℕ) (t u : Bool) (s : OstpState) (m : ProtocolMachine F S)
      → s ≡ OstpState.closing
      → IsIgnored m (
          (guard t framing >>= λ _. guard u ProtocolError.state >>= λ _. inbound_at env now raw s)
            m)
  unfolding ◌>>=◌
  closing_guards env now raw true true s m e =
      subst (λ s. IsIgnored m (inbound_at env now raw s m)) (sym e) (refl, tt)
  closing_guards env now raw true false s m e = (refl, tt)
  closing_guards env now raw false u s m e = (refl, tt)

  -- A session that is closing takes no datagram: it changes nothing and returns nothing to send or
  -- deliver, whatever arrives, so the peer's own Close frame does not end it.
  pub closing_ignores_inbound :
      (env : Env S) (now : ℕ) (datagram : List ℕ) (m : ProtocolMachine F S)
      → m.state ≡ OstpState.closing
      → IsIgnored m (on_event env now (OstpEvent.inbound datagram) m)
  unfolding on_event dispatch handle_inbound ◌>>=◌
  closing_ignores_inbound env now datagram m e =
      subst (λ s. IsIgnored m (dispatch env now m.role s (OstpEvent.inbound datagram) m)) (sym e)
        (closing_guards env now
          (deobfuscate_packet_inplace env.hash m.obfuscation_key (in_handshake m.state) datagram) _
          _ m.state m e)
