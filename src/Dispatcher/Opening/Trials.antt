-- ===== src/Dispatcher/Opening/Trials.antt =====
-- The trial of one access key in ostp-server/src/dispatcher.rs: what it does to the dispatcher.
use ostp.Prelude.{
  ℕ, ◌<◌, ◌≤◌, ◌≡◌, refl, true, false, ◌||◌, Option, none, some, List, [], ◌∷◌, length, take, drop,
  ltb, leb, ◌==◌, from_be_bytes, arith, Bool-cases, inl, inr, ◌⊎◌,
}
use ostp.External.{F64}
use ostp.Outcome.{Outcome, ok, err, panic}
use ostp.Obfuscation.{DerivedSecrets, current_junk_window}
use ostp.Machine.{ProtocolMachine, ProtocolAction, Env}
use ostp.Dict.{Key, Dict, lookup, insert, contains, bytes_eq, bytes_eq_iff, nat_key, bytes_key}
use ostp.Dict.Laws.{lookup-insert_self}
use ostp.Users.{Users, get_or_create_user_stats, is_over_limit, stats_of}
use ostp.Dispatcher.{Dispatcher, PeerState, DispatchOutcome, Clock, max_sessions}
use ostp.Dispatcher.Caches.{cached_secrets, cached_junk_markers}
use ostp.Dispatcher.Handshake.{
  Trial, within_drift, admit, check_payload, after_trial, try_machine, try_key,
}

-- One of the keys.
abbrev pub Among : List ℕ → List (List ℕ) → Type 0
Among key [] = ⊥
Among key (other ∷ rest) = (key ≡ other) ⊎ Among key rest

-- The sessions, their addresses, the replay cache and the users.
abbrev pub Core : Type 0 → Type 0 → Type 0 → Type 0
Core A F S = Dict ℕ (PeerState A F S) × Dict A ℕ × Dict (List ℕ) ℕ × Users

module _ {A F S : Type 0} ⦃k : Key A⦄ ⦃f : F64 F⦄ where
  abbrev pub core : Dispatcher A F S → Core A F S
  core d = (d.peer_machines, d.addr_to_session, d.replay_cache, d.users)

  abbrev pub routes : Dispatcher A F S → Dict ℕ (PeerState A F S) × Dict A ℕ
  routes d = (d.peer_machines, d.addr_to_session)

  -- A session was opened for a peer by a handshake under a key.
  pub record Opens (clock : Clock) (peer : A) (key : List ℕ) (c : Core A F S)
      (d' : Dispatcher A F S) : Type 0 where
    pub payload : List ℕ
    pub sid : ℕ
    pub state : PeerState A F S
    -- the payload names the session, the key and the time
    pub long : 12 ≤ length payload
    pub names : from_be_bytes (take 4 (drop 8 payload)) ≡ sid
    pub keyed : drop 12 payload ≡ key
    pub recent : within_drift clock.unix (from_be_bytes (take 8 payload)) ≡ true
    -- it was not used before, and is remembered
    pub unused : contains payload c.2 ≡ false
    pub used : lookup payload d'.replay_cache ≡ some (from_be_bytes (take 8 payload))
    -- there was room, and traffic left
    pub room : length c.0 < max_sessions
    pub traffic :
        is_over_limit (stats_of clock.unix key (get_or_create_user_stats clock.unix key c.3))
        ≡ false
    -- the routes change by the session alone
    pub opened : routes d' ≡ (insert sid state c.0, insert peer sid c.1)
    pub owner : state.access_key ≡ key
    pub here : state.last_addr ≡ peer

  -- Only an accepted datagram has opened a session, and it brings no payloads.
  abbrev pub Answers :
      Clock
      → A
      → List (List ℕ)
      → Core A F S
      → Outcome (DispatchOutcome A)
      → Dispatcher A F S
      → Type 0
  Answers clock peer tried c (ok (DispatchOutcome.accepted responses payloads addr)) d' =
      (payloads ≡ [])
      × (addr ≡ peer)
      × ((key : List ℕ) × Among key tried × Opens clock peer key c d')
  Answers clock peer tried c (ok DispatchOutcome.unauthorized) d' = routes d' ≡ (c.0, c.1)
  Answers clock peer tried c (ok DispatchOutcome.junk) d' = routes d' ≡ (c.0, c.1)
  Answers clock peer tried c (err e) d' = routes d' ≡ (c.0, c.1)
  Answers clock peer tried c panic d' = routes d' ≡ (c.0, c.1)

  -- The same of the trial of one key.
  abbrev pub Tries : Clock → A → List ℕ → Core A F S → Trial A F S → Type 0
  Tries clock peer key c (ok none, d') = core d' ≡ c
  Tries clock peer key c (ok (some outcome), d') = Answers clock peer (key ∷ []) c (ok outcome) d'
  Tries clock peer key c (err e, d') = routes d' ≡ (c.0, c.1)
  Tries clock peer key c (panic, d') = routes d' ≡ (c.0, c.1)

  admit-Tries :
      (clock : Clock) (peer : A) (key : List ℕ) (secrets : DerivedSecrets) (sid : ℕ)
      (m : ProtocolMachine F S) (payload : List ℕ) (response : Option (List ℕ))
      (d : Dispatcher A F S)
      → 12 ≤ length payload
      → from_be_bytes (take 4 (drop 8 payload)) ≡ sid
      → drop 12 payload ≡ key
      → within_drift clock.unix (from_be_bytes (take 8 payload)) ≡ true
      → Tries clock peer key
          (core d)
          (admit clock peer key secrets sid m payload (from_be_bytes (take 8 payload)) response d)
  unfolding admit
  admit-Tries clock peer key secrets sid m payload response d long names keyed recent =
      let users = get_or_create_user_stats clock.unix key d.users in
      elim (Bool-cases (contains payload d.replay_cache)) [
        | inl q ↦ rw q refl
        | inr new ↦ elim (Bool-cases (leb max_sessions (length d.peer_machines))) [
          | inl q ↦ rw (new, q) refl
          | inr room ↦ elim (Bool-cases (is_over_limit (stats_of clock.unix key users))) [
            | inl q ↦ rw (new, room, q) refl
            | inr traffic ↦
                rw (new, room, traffic)
                  (
                    refl,
                    refl,
                    (
                      key,
                      inl refl,
                      record {
                        payload = payload;
                        sid = sid;
                        state = _;
                        long = long;
                        names = names;
                        keyed = keyed;
                        recent = recent;
                        unused = new;
                        used = lookup-insert_self payload _ _;
                        room = ground (arith, room);
                        traffic = traffic;
                        opened = refl;
                        owner = refl;
                        here = refl;
                      },
                    ),
                  )
          ]
        ]
      ]

  check_payload-Tries :
      (clock : Clock) (peer : A) (key : List ℕ) (secrets : DerivedSecrets) (sid : ℕ)
      (m : ProtocolMachine F S) (payload : List ℕ) (response : Option (List ℕ))
      (d : Dispatcher A F S)
      → Tries clock peer key
          (core d)
          (check_payload clock peer key secrets sid m payload response d)
  unfolding check_payload
  check_payload-Tries clock peer key secrets sid m payload response d =
      let ts : ℕ = from_be_bytes (take 8 payload) in
      elim (Bool-cases (ltb (length payload) 12)) [
        | inl q ↦ rw q refl
        | inr q ↦ elim (Bool-cases (from_be_bytes (take 4 (drop 8 payload)) == sid)) [
          | inr q' ↦ rw (q, q') refl
          | inl q' ↦ elim (Bool-cases (bytes_eq (drop 12 payload) key)) [
            | inr r ↦ rw (q, q', r) refl
            | inl r ↦ elim (Bool-cases (within_drift clock.unix ts)) [
              | inr t ↦ rw (q, q', r, t) refl
              | inl t ↦
                  rw (q, q', r, t)
                    (admit-Tries clock peer key secrets sid m payload response d (ground (arith, q))
                      (ground (arith, q')) ((bytes_eq_iff _ _).0 r) t)
            ]
          ]
        ]
      ]

  after_trial-Tries :
      (clock : Clock) (peer : A) (key : List ℕ) (secrets : DerivedSecrets) (sid : ℕ)
      (r : Outcome ProtocolAction × ProtocolMachine F S) (d : Dispatcher A F S)
      → Tries clock peer key (core d) (after_trial clock peer key secrets sid r d)
  unfolding after_trial
  after_trial-Tries clock peer key secrets sid
        (ok (ProtocolAction.handshake_payload payload response), m) d =
      check_payload-Tries clock peer key secrets sid m payload response d
  after_trial-Tries clock peer key secrets sid (ok (ProtocolAction.send_datagram frame), m) d = refl
  after_trial-Tries clock peer key secrets sid (ok (ProtocolAction.deliver_app i x), m) d = refl
  after_trial-Tries clock peer key secrets sid (ok (ProtocolAction.multiple list), m) d = refl
  after_trial-Tries clock peer key secrets sid (ok ProtocolAction.noop, m) d = refl
  after_trial-Tries clock peer key secrets sid (err x, m) d = refl
  after_trial-Tries clock peer key secrets sid (panic, m) d = refl

  try_machine-Tries :
      (env : Env S) (clock : Clock) (peer : A) (packet key : List ℕ) (secrets : DerivedSecrets)
      (sid : ℕ) (m : Outcome (ProtocolMachine F S)) (d : Dispatcher A F S)
      → Tries clock peer key (core d) (try_machine env clock peer packet key secrets sid m d)
  try_machine-Tries env clock peer packet key secrets sid (ok m) d =
      after_trial-Tries clock peer key secrets sid _ d
  try_machine-Tries env clock peer packet key secrets sid (err x) d = refl
  try_machine-Tries env clock peer packet key secrets sid panic d = refl

  pub try_key-Tries :
      (env : Env S) (clock : Clock) (peer : A) (packet key : List ℕ) (d : Dispatcher A F S)
      → Tries clock peer key (core d) (try_key env clock peer packet key d)
  unfolding try_key
  try_key-Tries env clock peer packet key d0 =
      let secrets = cached_secrets env.hash key d0.secrets_cache in
      let markers =
        cached_junk_markers env.hash key (current_junk_window clock.unix) d0.junk_cache in
      elim (Bool-cases
        (bytes_eq (take 4 packet) markers.0.0 || bytes_eq (take 4 packet) markers.0.1)) [
          | inl q ↦ rw q refl
          | inr q ↦ elim (Bool-cases (ltb (length packet) 7)) [
            | inl r ↦ rw (q, r) refl
            | inr r ↦
                rw (q, r)
                  (try_machine-Tries env clock peer packet key secrets.0 _ _
                    (record d0 { secrets_cache = secrets.1; junk_cache = markers.1 }))
          ]
        ]
