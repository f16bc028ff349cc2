-- ===== src/Dispatcher/Life.antt =====
-- The rules of the dispatcher over its calls, and over any life of it.
use ostp.Prelude.{
  ℕ, ◌≡◌, refl, Option, none, some, List, [], ◌∷◌, length, ltb, arith, Bool-cases, inl, inr,
}
use ostp.External.{F64}
use ostp.Outcome.{Outcome, ok, err, panic}
use ostp.Machine.{ProtocolMachine, ProtocolAction, OstpEvent, Env}
use ostp.Machine.Events.{on_event}
use ostp.Dict.{Key, Dict, lookup, nat_key, bytes_key}
use ostp.Users.{Users}
use ostp.Dispatcher.{Dispatcher, PeerState, Clock}
use ostp.Dispatcher.Known.{find_session, drop_session, or_roam, session_at}
use ostp.Dispatcher.Calls.{
  on_datagram, handle_found, handle_at, outbound_to_session, outbound_at, after_outbound, drop_all,
  mark_expired, clean_up, on_tick,
}
use ostp.Dispatcher.Rules.{Rules, Holds, on_known-keeps, drop_session-keeps}
use ostp.Dispatcher.Rules.Handshakes.{on_unknown-keeps}

-- A call, with what it reads from outside, or a change of the users by the management API.
pub data Call (A S : Type 0) : Type 0 where
  datagram : Env S → Clock → A → List ℕ → Call A S
  outbound : Env S → Clock → ℕ → ℕ → List ℕ → Call A S
  tick : Env S → Clock → Call A S
  drop_call : ℕ → ℕ → Call A S
  set_users : Users → Call A S

module _ {A F S : Type 0} ⦃k : Key A⦄ ⦃f : F64 F⦄ where
  unfoldable pub step : Call A S → Dispatcher A F S → Dispatcher A F S
  step (datagram env clock peer packet) d = (on_datagram env clock peer packet d).1
  step (outbound env clock sid stream_id payload) d =
      (outbound_to_session env clock sid stream_id payload d).1
  step (tick env clock) d = (on_tick env clock d).1
  step (drop_call unix sid) d = drop_session unix sid d
  step (set_users users) d = record d { users = users }

  unfoldable pub run : List (Call A S) → Dispatcher A F S → Dispatcher A F S
  unfolding step
  run [] d = d
  run (c ∷ calls) d = run calls (step c d)

  module _ (P : Dict ℕ (PeerState A F S) → Dict (List ℕ) ℕ → Type 0) (rules : Rules P) where
    find_session-same :
        (env : Env S) (clock : Clock) (peer : A) (packet : List ℕ) (d : Dispatcher A F S)
        → Holds P rules d
        → Holds P rules ((find_session env.hash clock peer packet d).1)
    unfolding find_session
    find_session-same env clock peer packet d h =
        go (session_at env.hash packet d (lookup peer d.addr_to_session))
      where
        go : (o : Option ℕ) → Holds P rules ((or_roam env.hash clock packet d o).1)
        go (some sid) = h
        go none = ground (arith, h)

    handle_at-keeps :
        (env : Env S) (clock : Clock) (peer : A) (packet : List ℕ) (d : Dispatcher A F S) (sid : ℕ)
        (o : Option (PeerState A F S))
        → lookup sid d.peer_machines ≡ o
        → Holds P rules d
        → Holds P rules ((handle_at env clock peer packet d sid o).1)
    handle_at-keeps env clock peer packet d sid none e h =
        on_unknown-keeps P rules env clock peer packet d h
    handle_at-keeps env clock peer packet d sid (some ps) e h =
        on_known-keeps P rules env clock peer packet sid ps d e h

    handle_found-keeps :
        (env : Env S) (clock : Clock) (peer : A) (packet : List ℕ)
        (found : Option ℕ × Dispatcher A F S)
        → Holds P rules (found.1)
        → Holds P rules ((handle_found env clock peer packet found).1)
    handle_found-keeps env clock peer packet (none, d) h =
        on_unknown-keeps P rules env clock peer packet d h
    handle_found-keeps env clock peer packet (some sid, d) h =
        handle_at-keeps env clock peer packet d sid (lookup sid d.peer_machines) refl h

    on_datagram-keeps :
        (env : Env S) (clock : Clock) (peer : A) (packet : List ℕ) (d : Dispatcher A F S)
        → Holds P rules d
        → Holds P rules ((on_datagram env clock peer packet d).1)
    unfolding on_datagram
    on_datagram-keeps env clock peer packet d h = elim (Bool-cases (ltb (length packet) 4)) [
      | inl q ↦ rw q h
      | inr q ↦ rw q (
          handle_found-keeps env clock peer packet (find_session env.hash clock peer packet d)
            (find_session-same env clock peer packet d h))
    ]

    after_outbound-keeps :
        (env : Env S) (event : OstpEvent) (clock : Clock) (sid : ℕ) (ps : PeerState A F S)
        (d : Dispatcher A F S) (r : Outcome ProtocolAction × ProtocolMachine F S)
        → lookup sid d.peer_machines ≡ some ps
        → r.1 ≡ (on_event env clock.instant event ps.machine).1
        → Holds P rules d
        → Holds P rules ((after_outbound clock sid ps d r).1)
    after_outbound-keeps env event clock sid ps d (ok (ProtocolAction.send_datagram x), m) at e h =
        rules.put env clock.instant event sid ps _ d.peer_machines d.replay_cache at e h
    after_outbound-keeps env event clock sid ps d (ok (ProtocolAction.deliver_app i x), m) at e h =
        rules.put env clock.instant event sid ps _ d.peer_machines d.replay_cache at e h
    after_outbound-keeps env event clock sid ps d (ok (ProtocolAction.handshake_payload x y), m) at
          e h =
        rules.put env clock.instant event sid ps _ d.peer_machines d.replay_cache at e h
    after_outbound-keeps env event clock sid ps d (ok (ProtocolAction.multiple x), m) at e h =
        rules.put env clock.instant event sid ps _ d.peer_machines d.replay_cache at e h
    after_outbound-keeps env event clock sid ps d (ok ProtocolAction.noop, m) at e h =
        rules.put env clock.instant event sid ps _ d.peer_machines d.replay_cache at e h
    after_outbound-keeps env event clock sid ps d (err x, m) at e h =
        rules.put env clock.instant event sid ps _ d.peer_machines d.replay_cache at e h
    after_outbound-keeps env event clock sid ps d (panic, m) at e h =
        rules.put env clock.instant event sid ps _ d.peer_machines d.replay_cache at e h

    outbound_at-keeps :
        (env : Env S) (clock : Clock) (sid stream_id : ℕ) (payload : List ℕ) (d : Dispatcher A F S)
        (o : Option (PeerState A F S))
        → lookup sid d.peer_machines ≡ o
        → Holds P rules d
        → Holds P rules ((outbound_at env clock sid stream_id payload d o).1)
    outbound_at-keeps env clock sid stream_id payload d none e h = h
    outbound_at-keeps env clock sid stream_id payload d (some ps) e h =
        after_outbound-keeps env (OstpEvent.outbound stream_id payload) clock sid ps d _ e refl h

    drop_all-keeps :
        (unix : ℕ) (sids : List ℕ) (d : Dispatcher A F S)
        → Holds P rules d
        → Holds P rules (drop_all unix sids d)
    unfolding drop_all
    drop_all-keeps unix [] d h = h
    drop_all-keeps unix (sid ∷ rest) d h =
        drop_all-keeps unix rest (drop_session unix sid d) (drop_session-keeps P rules unix sid d h)

    pub clean_up-keeps :
        (clock : Clock) (d : Dispatcher A F S)
        → Holds P rules d
        → Holds P rules ((clean_up clock d).1)
    unfolding clean_up
    clean_up-keeps clock d h =
        let marked = mark_expired clock d in
        drop_all-keeps clock.unix marked.0 marked.1
          (rules.age clock.unix d.peer_machines d.replay_cache h)

    on_tick-keeps :
        (env : Env S) (clock : Clock) (d : Dispatcher A F S)
        → Holds P rules d
        → Holds P rules ((on_tick env clock d).1)
    unfolding on_tick
    on_tick-keeps env clock d h =
        let c = (clean_up clock d).1 in
        rules.tick env clock.instant c.peer_machines c.replay_cache (clean_up-keeps clock d h)

    pub step-keeps :
        (c : Call A S) (d : Dispatcher A F S) → Holds P rules d → Holds P rules (step c d)
    unfolding step outbound_to_session
    step-keeps (datagram env clock peer packet) d h = on_datagram-keeps env clock peer packet d h
    step-keeps (outbound env clock sid stream_id payload) d h =
        outbound_at-keeps env clock sid stream_id payload d (lookup sid d.peer_machines) refl h
    step-keeps (tick env clock) d h = on_tick-keeps env clock d h
    step-keeps (drop_call unix sid) d h = drop_session-keeps P rules unix sid d h
    step-keeps (set_users users) d h = h

    pub run-keeps :
        (calls : List (Call A S)) (d : Dispatcher A F S)
        → Holds P rules d
        → Holds P rules (run calls d)
    unfolding run
    run-keeps [] d h = h
    run-keeps (c ∷ calls) d h = run-keeps calls (step c d) (step-keeps c d h)
