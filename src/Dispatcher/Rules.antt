-- ===== src/Dispatcher/Rules.antt =====
-- What the calls of ostp-server/src/dispatcher.rs do to its sessions and its replay cache, as one rule for
-- a change: a predicate that every rule keeps is kept by every call.
pub mod Handshakes
use ostp.Prelude.{
  ℕ, ◌<◌, ◌≡◌, refl, Bool, false, not, ◌&&◌, Option, none, some, List, length, arith, Bool-cases,
  inl, inr, ◌∙◌,
}
use ostp.External.{F64}
use ostp.Outcome.{Outcome, ok, err, panic}
use ostp.Noise.{NoiseSession}
use ostp.Noise
use ostp.Machine.{
  ProtocolMachine, ProtocolConfig, ProtocolAction, OstpEvent, Env, set_session_keys, machine,
}
use ostp.Machine
use ostp.Machine.Events.{on_event}
use ostp.Dict.{Key, Dict, lookup, insert, remove, contains, nat_key, bytes_key}
use ostp.Users.{get_or_create_user_stats, track_user_bytes_up, is_admitted}
use ostp.Dispatcher.{Dispatcher, PeerState, Clock, max_sessions}
use ostp.Dispatcher.Known.{
  follow, after_event, drop_session, drop_found, on_known, touch, raised_highest,
}
use ostp.Dispatcher.Handshake.{reclaim, expire}
use ostp.Dispatcher.Calls.{tick_all}

module _ {A F S : Type 0} ⦃k : Key A⦄ ⦃f : F64 F⦄ where
  -- `P` of the sessions and the replay cache.
  pub record Rules (P : Dict ℕ (PeerState A F S) → Dict (List ℕ) ℕ → Type 0) : Type 0 where
    -- a session takes an event
    pub put :
        (env : Env S) (now : ℕ) (event : OstpEvent) (sid : ℕ) (old new : PeerState A F S)
        (m : Dict ℕ (PeerState A F S)) (r : Dict (List ℕ) ℕ)
        → lookup sid m ≡ some old
        → new.machine ≡ (on_event env now event old.machine).1
        → P m r
        → P (insert sid new m) r
    -- a session is dropped
    pub leave :
        (sid : ℕ) (m : Dict ℕ (PeerState A F S)) (r : Dict (List ℕ) ℕ) → P m r → P (remove sid m) r
    -- a handshake opens a session
    pub join :
        (env : Env S) (config : ProtocolConfig) (now : ℕ) (noise : NoiseSession S) (packet : List ℕ)
        (sid : ℕ) (key : List ℕ) (new : PeerState A F S) (unix ts : ℕ) (payload : List ℕ)
        (m : Dict ℕ (PeerState A F S)) (r : Dict (List ℕ) ℕ)
        → new.machine
          ≡ set_session_keys sid key
              (on_event env now (OstpEvent.inbound packet) (machine env config now noise)).1
        → length m < max_sessions
        → contains payload r ≡ false
        → P m r
        → P (insert sid new m) (insert payload ts (reclaim unix r))
    -- a handshake is refused, before and after it is remembered
    pub forget :
        (unix : ℕ) (m : Dict ℕ (PeerState A F S)) (r : Dict (List ℕ) ℕ)
        → P m r
        → P m (reclaim unix r)
    pub refuse :
        (unix ts : ℕ) (payload : List ℕ) (m : Dict ℕ (PeerState A F S)) (r : Dict (List ℕ) ℕ)
        → contains payload r ≡ false
        → P m r
        → P m (insert payload ts (reclaim unix r))
    -- the work of a tick
    pub age :
        (unix : ℕ) (m : Dict ℕ (PeerState A F S)) (r : Dict (List ℕ) ℕ)
        → P m r
        → P m (expire unix r)
    pub tick :
        (env : Env S) (now : ℕ) (m : Dict ℕ (PeerState A F S)) (r : Dict (List ℕ) ℕ)
        → P m r
        → P ((tick_all env now m).1) r

  touch-machine :
      (clock : Clock) (peer : A) (ps : PeerState A F S) → (touch clock peer ps).machine ≡ ps.machine
  touch-machine clock peer ps = ground arith

  follow-same :
      (peer : A) (sid : ℕ) (raised : Bool) (ps : PeerState A F S) (d : Dispatcher A F S)
      → ((follow peer sid raised ps d).0.machine ≡ ps.machine)
        × ((follow peer sid raised ps d).1.peer_machines ≡ d.peer_machines)
        × ((follow peer sid raised ps d).1.replay_cache ≡ d.replay_cache)
  unfolding follow
  follow-same peer sid raised ps d = elim (Bool-cases (not (k.beq ps.last_addr peer) && raised)) [
    | inl q ↦ rw q (refl, refl, refl)
    | inr q ↦ rw q (refl, refl, refl)
  ]

  module _ (P : Dict ℕ (PeerState A F S) → Dict (List ℕ) ℕ → Type 0) (rules : Rules P) where
    abbrev pub Holds : Dispatcher A F S → Type 0
    Holds d = P d.peer_machines d.replay_cache

    pub drop_session-keeps :
        (unix sid : ℕ) (d : Dispatcher A F S) → Holds d → Holds (drop_session unix sid d)
    unfolding drop_session
    drop_session-keeps unix sid d h = go (lookup sid d.peer_machines)
      where
        go : (o : Option (PeerState A F S)) → Holds (drop_found unix sid o d)
        go none = h
        go (some ps) = rules.leave sid d.peer_machines d.replay_cache h

    after_event-keeps :
        (env : Env S) (now : ℕ) (event : OstpEvent) (clock : Clock) (peer : A) (sid : ℕ)
        (ps : PeerState A F S) (r : Outcome ProtocolAction × ProtocolMachine F S)
        (d : Dispatcher A F S)
        → lookup sid d.peer_machines ≡ some ps
        → r.1 ≡ (on_event env now event ps.machine).1
        → Holds d
        → Holds ((after_event clock peer sid ps r d).1)
    unfolding after_event
    after_event-keeps env now event clock peer sid ps (ok action, m) d at e h =
        let raised =
          raised_highest ps.machine.highest_authenticated_recv_nonce
            m.highest_authenticated_recv_nonce in
        let ps' = record ps { machine = m } in
        let moved = follow-same peer sid raised ps' d in
        let same = touch-machine clock peer ((follow peer sid raised ps' d).0) ∙ moved.0 in
        rw (moved.1, moved.2)
          (rules.put env now event sid ps _ d.peer_machines d.replay_cache at (same ∙ e) h)
    after_event-keeps env now event clock peer sid ps (err x, m) d at e h =
        rules.put env now event sid ps _ d.peer_machines d.replay_cache at e h
    after_event-keeps env now event clock peer sid ps (panic, m) d at e h =
        rules.put env now event sid ps _ d.peer_machines d.replay_cache at e h

    pub on_known-keeps :
        (env : Env S) (clock : Clock) (peer : A) (packet : List ℕ) (sid : ℕ) (ps : PeerState A F S)
        (d : Dispatcher A F S)
        → lookup sid d.peer_machines ≡ some ps
        → Holds d
        → Holds ((on_known env clock peer packet sid ps d).1)
    unfolding on_known
    on_known-keeps env clock peer packet sid ps d at h =
        let users = get_or_create_user_stats clock.unix ps.access_key d.users in
        elim (Bool-cases (not (is_admitted clock.unix ps.access_key users))) [
          | inl q ↦ rw q (drop_session-keeps clock.unix sid (record d { users = users }) h)
          | inr q ↦ rw q (
              after_event-keeps env clock.instant (OstpEvent.inbound packet) clock peer sid ps _
                (record d {
                  users = track_user_bytes_up clock.unix ps.access_key (length packet) users;
                })
                at refl h)
        ]
