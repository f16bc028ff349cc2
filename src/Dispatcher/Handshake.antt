-- ===== src/Dispatcher/Handshake.antt =====
-- New sessions in ostp-server/src/dispatcher.rs: the datagram of an unknown session is tried as a
-- handshake under every access key.
use ostp.Prelude.{
  ℕ, ◌+◌, ◌-◌, ◌%◌, ◌^◌, Bool, true, not, ◌||◌, Option, none, some, List, [], ◌∷◌, length, take,
  drop, ltb, leb, ◌==◌, if◌then◌else◌, from_be_bytes, retain,
}
use ostp.External.{F64}
use ostp.Outcome.{Outcome, ok, err, panic}
use ostp.Obfuscation.{DerivedSecrets, deobfuscate_packet_inplace, current_junk_window}
use ostp.Machine.{ProtocolMachine, ProtocolConfig, ProtocolAction, OstpEvent, Env, set_session_keys}
use ostp.Machine
use ostp.Machine.Events.{on_event}
use ostp.Dict.{Key, Dict, insert, remove, contains, keys, bytes_eq, nat_key, bytes_key}
use ostp.Users.{stats_of, is_over_limit, get_or_create_user_stats, connect_user}
use ostp.Dispatcher.{Dispatcher, DispatchOutcome, Clock, max_sessions, replay_cache_max}
use ostp.Dispatcher.Caches.{cached_secrets, cached_junk_markers}
use ostp.Dispatcher.Known.{refill}

-- `(now as i64 - ts as i64).abs() <= 300` in a release build, of two u64: the difference modulo
-- 2^64, read as an i64, of which the least is its own absolute value.
unfoldable pub within_drift : ℕ → ℕ → Bool
within_drift now ts =
    let d : ℕ = (now + 2 ^ 64 - ts) % 2 ^ 64 in leb d 300 || (d == 2 ^ 63 || leb (2 ^ 64 - 300) d)

-- `min_by_key`: the first entry with the least timestamp.
abbrev pub older : List ℕ × ℕ → Option (List ℕ × ℕ) → Option (List ℕ × ℕ)
older x none = some x
older x (some y) = if leb x.1 y.1 then some x else some y

unfoldable pub oldest : Dict (List ℕ) ℕ → Option (List ℕ × ℕ)
oldest [] = none
oldest (x ∷ d) = older x (oldest d)

abbrev pub without : Option (List ℕ × ℕ) → Dict (List ℕ) ℕ → Dict (List ℕ) ℕ
without none d = d
without (some x) d = remove x.0 d

unfoldable pub expire : ℕ → Dict (List ℕ) ℕ → Dict (List ℕ) ℕ
expire unix cache = retain (λ x. within_drift unix x.1) cache

abbrev pub evict_oldest : Dict (List ℕ) ℕ → Dict (List ℕ) ℕ
evict_oldest cache =
    if leb replay_cache_max (length cache) then without (oldest cache) cache else cache

-- Room in the replay cache.
unfoldable pub reclaim : ℕ → Dict (List ℕ) ℕ → Dict (List ℕ) ℕ
unfolding expire
reclaim unix cache =
    if leb replay_cache_max (length cache) then evict_oldest (expire unix cache) else cache

abbrev pub to_list : Option (List ℕ) → List (List ℕ)
to_list none = []
to_list (some x) = x ∷ []

-- What trying a key gives: an answer, or nothing (`continue`).
abbrev pub Trial : Type 0 → Type 0 → Type 0 → Type 0
Trial A F S = Outcome (Option (DispatchOutcome A)) × Dispatcher A F S

-- The configuration of a session under a key.
abbrev pub trial_config : ProtocolConfig → DerivedSecrets → ℕ → ProtocolConfig
trial_config config secrets sid = record config {
  session_id = sid;
  psk = secrets.psk;
  handshake_payload = [];
  obfuscation_key = secrets.obfuscation_key;
  handshake_pad_min = secrets.handshake_pad_min;
  handshake_pad_max = secrets.handshake_pad_max;
}

module _ {A F S : Type 0} ⦃k : Key A⦄ ⦃f : F64 F⦄ where
  -- The handshake is authentic and recent: limits and the replay cache decide.
  unfoldable pub admit :
      Clock
      → A
      → List ℕ
      → DerivedSecrets
      → ℕ
      → ProtocolMachine F S
      → List ℕ
      → ℕ
      → Option (List ℕ)
      → Dispatcher A F S
      → Trial A F S
  admit clock peer key secrets sid machine payload ts response d =
      let cache = reclaim clock.unix d.replay_cache in
      let users = get_or_create_user_stats clock.unix key d.users in
      if contains payload d.replay_cache
      then (ok none, d)
      else if leb max_sessions (length d.peer_machines)
      then (ok (some DispatchOutcome.unauthorized), record d { replay_cache = cache })
      else if is_over_limit (stats_of clock.unix key users)
      then (
        ok (some DispatchOutcome.unauthorized),
        record d { replay_cache = insert payload ts cache; users = users },
      )
      else (
        ok (some (DispatchOutcome.accepted (to_list response) [] peer)),
        record d {
          replay_cache = insert payload ts cache;
          users = connect_user clock.unix key users;
          peer_machines =
              insert sid
                (record {
                  machine = set_session_keys sid secrets.obfuscation_key machine;
                  last_addr = peer;
                  obfuscation_key = secrets.obfuscation_key;
                  last_seen = clock.instant;
                  access_key = key;
                })
                d.peer_machines;
          addr_to_session = insert peer sid d.addr_to_session;
        },
      )

  -- The payload of a handshake: a timestamp, the session and the access key. Bytes that are the key
  -- are UTF-8, as the key is.
  unfoldable pub check_payload :
      Clock
      → A
      → List ℕ
      → DerivedSecrets
      → ℕ
      → ProtocolMachine F S
      → List ℕ
      → Option (List ℕ)
      → Dispatcher A F S
      → Trial A F S
  unfolding admit within_drift
  check_payload clock peer key secrets sid machine payload response d =
      let ts : ℕ = from_be_bytes (take 8 payload) in
      if ltb (length payload) 12
      then (ok none, d)
      else if not (from_be_bytes (take 4 (drop 8 payload)) == sid)
      then (ok none, d)
      else if not (bytes_eq (drop 12 payload) key)
      then (ok none, d)
      else if not (within_drift clock.unix ts)
      then (ok none, d)
      else admit clock peer key secrets sid machine payload ts response d

  unfoldable pub after_trial :
      Clock
      → A
      → List ℕ
      → DerivedSecrets
      → ℕ
      → Outcome ProtocolAction × ProtocolMachine F S
      → Dispatcher A F S
      → Trial A F S
  unfolding check_payload
  after_trial clock peer key secrets sid
        (ok (ProtocolAction.handshake_payload payload response), machine) d =
      check_payload clock peer key secrets sid machine payload response d
  after_trial clock peer key secrets sid (ok (ProtocolAction.send_datagram frame), machine) d =
      (ok none, d)
  after_trial clock peer key secrets sid
        (ok (ProtocolAction.deliver_app stream_id payload), machine) d =
      (ok none, d)
  after_trial clock peer key secrets sid (ok (ProtocolAction.multiple list), machine) d =
      (ok none, d)
  after_trial clock peer key secrets sid (ok ProtocolAction.noop, machine) d = (ok none, d)
  after_trial clock peer key secrets sid (err e, machine) d = (ok none, d)
  after_trial clock peer key secrets sid (panic, machine) d = (panic, d)

  abbrev pub try_machine :
      Env S
      → Clock
      → A
      → List ℕ
      → List ℕ
      → DerivedSecrets
      → ℕ
      → Outcome (ProtocolMachine F S)
      → Dispatcher A F S
      → Trial A F S
  try_machine env clock peer packet key secrets sid (ok machine) d =
      after_trial clock peer key secrets sid
        (on_event env clock.instant (OstpEvent.inbound packet) machine) d
  try_machine env clock peer packet key secrets sid (err e) d = (ok none, d)
  try_machine env clock peer packet key secrets sid panic d = (panic, d)

  unfoldable pub try_key : Env S → Clock → A → List ℕ → List ℕ → Dispatcher A F S → Trial A F S
  unfolding after_trial
  try_key env clock peer packet key d0 =
      let secrets = cached_secrets env.hash key d0.secrets_cache in
      let markers =
        cached_junk_markers env.hash key (current_junk_window clock.unix) d0.junk_cache in
      let d = record d0 { secrets_cache = secrets.1; junk_cache = markers.1 } in
      let trial = deobfuscate_packet_inplace env.hash secrets.0.obfuscation_key true packet in
      let sid : ℕ = from_be_bytes (take 4 trial) in
      if bytes_eq (take 4 packet) markers.0.0 || bytes_eq (take 4 packet) markers.0.1
      then (ok (some DispatchOutcome.junk), d)
      else if ltb (length packet) 7
      then (ok none, d)
      else try_machine env clock peer packet key secrets.0 sid
          (Machine.new env (trial_config d.machine_config secrets.0 sid) clock.instant) d

  abbrev pub or_next :
      (Dispatcher A F S → Outcome (DispatchOutcome A) × Dispatcher A F S)
      → Trial A F S
      → Outcome (DispatchOutcome A) × Dispatcher A F S
  or_next next (ok (some outcome), d) = (ok outcome, d)
  or_next next (ok none, d) = next d
  or_next next (err e, d) = (err e, d)
  or_next next (panic, d) = (panic, d)

  unfoldable pub try_keys :
      Env S
      → Clock
      → A
      → List ℕ
      → List (List ℕ)
      → Dispatcher A F S
      → Outcome (DispatchOutcome A) × Dispatcher A F S
  try_keys env clock peer packet [] d = (ok DispatchOutcome.unauthorized, d)
  try_keys env clock peer packet (key ∷ rest) d =
      or_next (try_keys env clock peer packet rest) (try_key env clock peer packet key d)

  -- All keys are tried, within the token bucket.
  unfoldable pub on_unknown :
      Env S → Clock → A → List ℕ → Dispatcher A F S → Outcome (DispatchOutcome A) × Dispatcher A F S
  unfolding try_keys
  on_unknown env clock peer packet d0 =
      let tokens = refill (f.of_nat 100) (clock.instant - d0.last_trial_regen) d0.trial_tokens in
      let d = record d0 { last_trial_regen = clock.instant; trial_tokens = tokens } in
      if not (f.ge tokens (f.of_nat 1))
      then (ok DispatchOutcome.unauthorized, d)
      else try_keys env clock peer packet (keys d.users.access_keys)
          (record d { trial_tokens = f.sub tokens (f.of_nat 1) })
