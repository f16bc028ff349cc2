-- ===== src/Dispatcher/Calls.antt =====
-- The calls on the dispatcher of ostp-server/src/dispatcher.rs, `on_datagram`, `outbound_to_session` and
-- `on_tick`, and any sequence of them with changes by the management API between them.
use ostp.Prelude.{
  ℕ, ◌-◌, Bool, true, false, not, ◌||◌, Option, none, some, List, [], ◌∷◌, ◌++◌, map, length, ltb,
  if◌then◌else◌, retain,
}
use ostp.External.{F64}
use ostp.Outcome.{Outcome, ok, err, panic}
use ostp.Machine.{ProtocolMachine, ProtocolAction, Actions, OstpEvent, OstpState, Env}
use ostp.Machine.Events.{on_event}
use ostp.Dict.{Key, Dict, lookup, contains, nat_key, bytes_key}
use ostp.Users.{Users, get_or_create_user_stats, track_user_bytes_down, is_admitted}
use ostp.Dispatcher.{Dispatcher, PeerState, DispatchOutcome, Clock}
use ostp.Dispatcher.Known.{find_session, on_known, drop_session, put_peer}
use ostp.Dispatcher.Handshake.{on_unknown, expire}

-- The queue of `on_tick` is a stack: the datagrams of a list come out from its end.
unfoldable mutual
  pub tick_frames : ProtocolAction → List (List ℕ)
  tick_frames (ProtocolAction.send_datagram frame) = frame ∷ []
  tick_frames (ProtocolAction.multiple list) = tick_frames_among list
  tick_frames (ProtocolAction.deliver_app stream_id payload) = []
  tick_frames (ProtocolAction.handshake_payload payload response) = []
  tick_frames ProtocolAction.noop = []

  pub tick_frames_among : Actions → List (List ℕ)
  tick_frames_among Actions.end = []
  tick_frames_among (Actions.also a list) = tick_frames_among list ++ tick_frames a

-- Nanoseconds.
abbrev pub session_timeout : ℕ
session_timeout = 600_000_000_000

abbrev pub is_closed : OstpState → Bool
is_closed OstpState.closed = true
is_closed OstpState.init = false
is_closed OstpState.handshaking = false
is_closed OstpState.established = false
is_closed OstpState.closing = false

abbrev pub with_expired : {B C : Type 0} → B → Outcome C → Outcome (C × B)
with_expired gone (ok frames) = ok (frames, gone)
with_expired gone (err e) = err e
with_expired gone panic = panic

abbrev pub with_addr : {A : Type 0} → A → List (List ℕ) → List (List ℕ × A)
with_addr addr frames = map (λ frame. (frame, addr)) frames

module _ {A F S : Type 0} ⦃k : Key A⦄ ⦃f : F64 F⦄ where
  abbrev pub handle_at :
      Env S
      → Clock
      → A
      → List ℕ
      → Dispatcher A F S
      → ℕ
      → Option (PeerState A F S)
      → Outcome (DispatchOutcome A) × Dispatcher A F S
  handle_at env clock peer packet d sid none = on_unknown env clock peer packet d
  handle_at env clock peer packet d sid (some peer_state) =
      on_known env clock peer packet sid peer_state d

  abbrev pub handle_found :
      Env S
      → Clock
      → A
      → List ℕ
      → Option ℕ × Dispatcher A F S
      → Outcome (DispatchOutcome A) × Dispatcher A F S
  handle_found env clock peer packet (none, d) = on_unknown env clock peer packet d
  handle_found env clock peer packet (some sid, d) =
      handle_at env clock peer packet d sid (lookup sid d.peer_machines)

  unfoldable pub on_datagram :
      Env S → Clock → A → List ℕ → Dispatcher A F S → Outcome (DispatchOutcome A) × Dispatcher A F S
  unfolding find_session on_known on_unknown
  on_datagram env clock peer packet d =
      if ltb (length packet) 4
      then (ok DispatchOutcome.unauthorized, d)
      else handle_found env clock peer packet (find_session env.hash clock peer packet d)

  abbrev pub after_outbound :
      Clock
      → ℕ
      → PeerState A F S
      → Dispatcher A F S
      → Outcome ProtocolAction × ProtocolMachine F S
      → Outcome (Option (List ℕ × A)) × Dispatcher A F S
  after_outbound clock sid peer_state d (ok (ProtocolAction.send_datagram frame), machine) = (
    ok (some (frame, peer_state.last_addr)),
    record (put_peer sid (record peer_state { machine = machine }) d) {
      users = track_user_bytes_down clock.unix peer_state.access_key (length frame) d.users;
    },
  )
  after_outbound clock sid peer_state d
        (ok (ProtocolAction.deliver_app stream_id payload), machine) =
      (ok none, put_peer sid (record peer_state { machine = machine }) d)
  after_outbound clock sid peer_state d
        (ok (ProtocolAction.handshake_payload payload response), machine) =
      (ok none, put_peer sid (record peer_state { machine = machine }) d)
  after_outbound clock sid peer_state d (ok (ProtocolAction.multiple list), machine) =
      (ok none, put_peer sid (record peer_state { machine = machine }) d)
  after_outbound clock sid peer_state d (ok ProtocolAction.noop, machine) =
      (ok none, put_peer sid (record peer_state { machine = machine }) d)
  after_outbound clock sid peer_state d (err e, machine) =
      (err e, put_peer sid (record peer_state { machine = machine }) d)
  after_outbound clock sid peer_state d (panic, machine) =
      (panic, put_peer sid (record peer_state { machine = machine }) d)

  abbrev pub outbound_at :
      Env S
      → Clock
      → ℕ
      → ℕ
      → List ℕ
      → Dispatcher A F S
      → Option (PeerState A F S)
      → Outcome (Option (List ℕ × A)) × Dispatcher A F S
  outbound_at env clock sid stream_id payload d none = (ok none, d)
  outbound_at env clock sid stream_id payload d (some peer_state) =
      after_outbound clock sid peer_state d
        (on_event env clock.instant (OstpEvent.outbound stream_id payload) peer_state.machine)

  unfoldable pub outbound_to_session :
      Env S
      → Clock
      → ℕ
      → ℕ
      → List ℕ
      → Dispatcher A F S
      → Outcome (Option (List ℕ × A)) × Dispatcher A F S
  outbound_to_session env clock sid stream_id payload d =
      outbound_at env clock sid stream_id payload d (lookup sid d.peer_machines)

  unfoldable pub is_expired : Clock → Users → PeerState A F S → Bool
  is_expired clock users peer_state =
      is_closed peer_state.machine.state
      || (ltb session_timeout (clock.instant - peer_state.last_seen)
          || not (is_admitted clock.unix peer_state.access_key users))

  -- The counters of every session's user are created.
  unfoldable pub create_all : ℕ → Dict ℕ (PeerState A F S) → Users → Users
  create_all unix [] users = users
  create_all unix ((sid, peer_state) ∷ rest) users =
      create_all unix rest (get_or_create_user_stats unix peer_state.access_key users)

  unfoldable pub drop_all : ℕ → List ℕ → Dispatcher A F S → Dispatcher A F S
  unfolding drop_session
  drop_all unix [] d = d
  drop_all unix (sid ∷ rest) d = drop_all unix rest (drop_session unix sid d)

  abbrev pub ticked :
      ℕ
      → PeerState A F S
      → Dict ℕ (PeerState A F S)
      → Outcome ProtocolAction × ProtocolMachine F S
      → Outcome (List (List ℕ × A)) × Dict ℕ (PeerState A F S)
      → Outcome (List (List ℕ × A)) × Dict ℕ (PeerState A F S)
  ticked sid peer_state rest (panic, machine) next =
      (panic, (sid, record peer_state { machine = machine }) ∷ rest)
  ticked sid peer_state rest (err e, machine) (r, rest') =
      (r, (sid, record peer_state { machine = machine }) ∷ rest')
  ticked sid peer_state rest (ok action, machine) (ok frames, rest') = (
    ok (with_addr peer_state.last_addr (tick_frames action) ++ frames),
    (sid, record peer_state { machine = machine }) ∷ rest',
  )
  ticked sid peer_state rest (ok action, machine) (err e, rest') =
      (err e, (sid, record peer_state { machine = machine }) ∷ rest')
  ticked sid peer_state rest (ok action, machine) (panic, rest') =
      (panic, (sid, record peer_state { machine = machine }) ∷ rest')

  -- The ticks of all sessions. An error is logged; a panic ends the loop.
  unfoldable pub tick_all :
      Env S → ℕ → Dict ℕ (PeerState A F S) → Outcome (List (List ℕ × A)) × Dict ℕ (PeerState A F S)
  tick_all env instant [] = (ok [], [])
  tick_all env instant ((sid, peer_state) ∷ rest) =
      ticked sid peer_state rest (on_event env instant OstpEvent.tick peer_state.machine)
        (tick_all env instant rest)

  -- The replay cache and the caches of deleted keys are cleared, and the sessions to drop are found.
  unfoldable pub mark_expired : Clock → Dispatcher A F S → List ℕ × Dispatcher A F S
  unfolding expire create_all is_expired
  mark_expired clock d =
      let users = create_all clock.unix d.peer_machines d.users in
      (
        map (λ x. x.0) (retain (λ x. is_expired clock users x.1) d.peer_machines),
        record d {
          replay_cache = expire clock.unix d.replay_cache;
          secrets_cache = retain (λ x. contains x.0 d.users.access_keys) d.secrets_cache;
          junk_cache = retain (λ x. contains x.0 d.users.access_keys) d.junk_cache;
          users = users;
        },
      )

  -- What `on_tick` does before it drives the sessions.
  unfoldable pub clean_up : Clock → Dispatcher A F S → List ℕ × Dispatcher A F S
  unfolding mark_expired drop_all
  clean_up clock d =
      let marked = mark_expired clock d in (marked.0, drop_all clock.unix marked.0 marked.1)

  unfoldable pub on_tick :
      Env S → Clock → Dispatcher A F S → Outcome (List (List ℕ × A) × List ℕ) × Dispatcher A F S
  unfolding clean_up
  on_tick env clock d =
      let cleaned = clean_up clock d in
      let ticks = tick_all env clock.instant cleaned.1.peer_machines in
      (with_expired cleaned.0 ticks.0, record cleaned.1 { peer_machines = ticks.1 })
