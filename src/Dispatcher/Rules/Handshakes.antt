-- ===== src/Dispatcher/Rules/Handshakes.antt =====
-- The rules of the dispatcher over a handshake.
use ostp.Prelude.{
  ℕ, ◌-◌, ◌≡◌, refl, true, not, ◌||◌, Option, none, some, List, [], ◌∷◌, length, take, drop, ltb,
  leb, ◌==◌, from_be_bytes, arith, Bool-cases, inl, inr, ap,
}
use ostp.External.{F64}
use ostp.Outcome.{Outcome, ok, err, panic, ◌>>=◌}
use ostp.Obfuscation.{DerivedSecrets, deobfuscate_packet_inplace, current_junk_window}
use ostp.Dispatcher.Caches.{cached_secrets, cached_junk_markers}
use ostp.Noise.{NoiseSession}
use ostp.Noise
use ostp.Machine.{
  ProtocolMachine, ProtocolConfig, ProtocolAction, OstpEvent, Env, set_session_keys, machine,
}
use ostp.Machine
use ostp.Machine.Events.{on_event}
use ostp.Dict.{Key, Dict, contains, keys, bytes_eq, nat_key, bytes_key}
use ostp.Users.{get_or_create_user_stats, is_over_limit, stats_of}
use ostp.Dispatcher.{Dispatcher, PeerState, DispatchOutcome, Clock, max_sessions}
use ostp.Dispatcher.Known.{refill}
use ostp.Dispatcher.Handshake.{
  Trial, admit, check_payload, after_trial, try_machine, try_key, or_next, try_keys, on_unknown,
  trial_config, within_drift,
}
use ostp.Dispatcher.Rules.{Rules, Holds}

module _ {A F S : Type 0} ⦃k : Key A⦄ ⦃f : F64 F⦄ where
  module _ (P : Dict ℕ (PeerState A F S) → Dict (List ℕ) ℕ → Type 0) (rules : Rules P) where
    admit-keeps :
        (env : Env S) (config : ProtocolConfig) (noise : NoiseSession S) (packet : List ℕ)
        (clock : Clock) (peer : A) (key : List ℕ) (secrets : DerivedSecrets) (sid : ℕ)
        (m : ProtocolMachine F S) (payload : List ℕ) (ts : ℕ) (response : Option (List ℕ))
        (d : Dispatcher A F S)
        → m
          ≡ (on_event env clock.instant
              (OstpEvent.inbound packet)
              (machine env config clock.instant noise)).1
        → Holds P rules d
        → Holds P rules ((admit clock peer key secrets sid m payload ts response d).1)
    unfolding admit
    admit-keeps env config noise packet clock peer key secrets sid m payload ts response d e h =
        let users = get_or_create_user_stats clock.unix key d.users in
        elim (Bool-cases (contains payload d.replay_cache)) [
          | inl q ↦ rw q h
          | inr new ↦ elim (Bool-cases (leb max_sessions (length d.peer_machines))) [
            | inl q ↦ rw (new, q) (rules.forget clock.unix d.peer_machines d.replay_cache h)
            | inr room ↦ elim (Bool-cases (is_over_limit (stats_of clock.unix key users))) [
              | inl q ↦
                  rw (new, room, q)
                    (rules.refuse clock.unix ts payload d.peer_machines d.replay_cache new h)
              | inr q ↦
                  rw (new, room, q)
                    (rules.join env config clock.instant noise packet sid secrets.obfuscation_key _
                      clock.unix ts payload d.peer_machines d.replay_cache
                      (ap (set_session_keys sid secrets.obfuscation_key) e) (ground arith) new h)
            ]
          ]
        ]

    check_payload-keeps :
        (env : Env S) (config : ProtocolConfig) (noise : NoiseSession S) (packet : List ℕ)
        (clock : Clock) (peer : A) (key : List ℕ) (secrets : DerivedSecrets) (sid : ℕ)
        (m : ProtocolMachine F S) (payload : List ℕ) (response : Option (List ℕ))
        (d : Dispatcher A F S)
        → m
          ≡ (on_event env clock.instant
              (OstpEvent.inbound packet)
              (machine env config clock.instant noise)).1
        → Holds P rules d
        → Holds P rules ((check_payload clock peer key secrets sid m payload response d).1)
    unfolding check_payload
    check_payload-keeps env config noise packet clock peer key secrets sid m payload response d e
          h =
        let ts = from_be_bytes (take 8 payload) in
        elim (Bool-cases (ltb (length payload) 12)) [
          | inl q ↦ rw q h
          | inr q ↦ elim (Bool-cases (not (from_be_bytes (take 4 (drop 8 payload)) == sid))) [
            | inl q' ↦ rw (q, q') h
            | inr q' ↦ elim (Bool-cases (not (bytes_eq (drop 12 payload) key))) [
              | inl r ↦ rw (q, q', r) h
              | inr r ↦ elim (Bool-cases (not (within_drift clock.unix ts))) [
                | inl t ↦ rw (q, q', r, t) h
                | inr t ↦
                    rw (q, q', r, t)
                      (admit-keeps env config noise packet clock peer key secrets sid m payload ts
                        response d e h)
              ]
            ]
          ]
        ]

    after_trial-keeps :
        (env : Env S) (config : ProtocolConfig) (noise : NoiseSession S) (packet : List ℕ)
        (clock : Clock) (peer : A) (key : List ℕ) (secrets : DerivedSecrets) (sid : ℕ)
        (r : Outcome ProtocolAction × ProtocolMachine F S) (d : Dispatcher A F S)
        → r.1
          ≡ (on_event env clock.instant
              (OstpEvent.inbound packet)
              (machine env config clock.instant noise)).1
        → Holds P rules d
        → Holds P rules ((after_trial clock peer key secrets sid r d).1)
    unfolding after_trial
    after_trial-keeps env config noise packet clock peer key secrets sid
          (ok (ProtocolAction.handshake_payload payload response), m) d e h =
        check_payload-keeps env config noise packet clock peer key secrets sid m payload response d
          e h
    after_trial-keeps env config noise packet clock peer key secrets sid
          (ok (ProtocolAction.send_datagram frame), m) d e h =
        h
    after_trial-keeps env config noise packet clock peer key secrets sid
          (ok (ProtocolAction.deliver_app stream_id payload), m) d e h =
        h
    after_trial-keeps env config noise packet clock peer key secrets sid
          (ok (ProtocolAction.multiple list), m) d e h =
        h
    after_trial-keeps env config noise packet clock peer key secrets sid (ok ProtocolAction.noop, m)
          d e h =
        h
    after_trial-keeps env config noise packet clock peer key secrets sid (err x, m) d e h = h
    after_trial-keeps env config noise packet clock peer key secrets sid (panic, m) d e h = h

    pub try_machine-keeps :
        (env : Env S) (config : ProtocolConfig) (clock : Clock) (peer : A) (packet key : List ℕ)
        (secrets : DerivedSecrets) (sid : ℕ) (r : Outcome (NoiseSession S)) (d : Dispatcher A F S)
        → Holds P rules d
        → Holds P rules (
            (try_machine env clock peer packet key secrets sid
              (r >>= λ noise. ok (machine env config clock.instant noise))
              d).1)
    try_machine-keeps env config clock peer packet key secrets sid (ok noise) d h =
        after_trial-keeps env config noise packet clock peer key secrets sid _ d refl h
    try_machine-keeps env config clock peer packet key secrets sid (err x) d h = h
    try_machine-keeps env config clock peer packet key secrets sid panic d h = h

    try_key-keeps :
        (env : Env S) (clock : Clock) (peer : A) (packet key : List ℕ) (d : Dispatcher A F S)
        → Holds P rules d
        → Holds P rules ((try_key env clock peer packet key d).1)
    unfolding try_key Machine.new
    try_key-keeps env clock peer packet key d0 h =
        let secrets = cached_secrets env.hash key d0.secrets_cache in
        let markers =
          cached_junk_markers env.hash key (current_junk_window clock.unix) d0.junk_cache in
        let d = record d0 { secrets_cache = secrets.1; junk_cache = markers.1 } in
        let trial = deobfuscate_packet_inplace env.hash secrets.0.obfuscation_key true packet in
        let sid = from_be_bytes (take 4 trial) in
        let config = trial_config d.machine_config secrets.0 sid in
        elim (Bool-cases
          (bytes_eq (take 4 packet) markers.0.0 || bytes_eq (take 4 packet) markers.0.1)) [
            | inl q ↦ rw q h
            | inr q ↦ elim (Bool-cases (ltb (length packet) 7)) [
              | inl r ↦ rw (q, r) h
              | inr r ↦
                  rw (q, r)
                    (try_machine-keeps env config clock peer packet key secrets.0 sid
                      (Noise.new env.snow config.role config.psk) d h)
            ]
          ]

    or_next-keeps :
        (next : Dispatcher A F S → Outcome (DispatchOutcome A) × Dispatcher A F S) (t : Trial A F S)
        → ((d : Dispatcher A F S) → Holds P rules d → Holds P rules ((next d).1))
        → Holds P rules (t.1)
        → Holds P rules ((or_next next t).1)
    or_next-keeps next (ok (some outcome), d) n h = h
    or_next-keeps next (ok none, d) n h = n d h
    or_next-keeps next (err e, d) n h = h
    or_next-keeps next (panic, d) n h = h

    try_keys-keeps :
        (env : Env S) (clock : Clock) (peer : A) (packet : List ℕ) (keys : List (List ℕ))
        (d : Dispatcher A F S)
        → Holds P rules d
        → Holds P rules ((try_keys env clock peer packet keys d).1)
    unfolding try_keys
    try_keys-keeps env clock peer packet [] d h = h
    try_keys-keeps env clock peer packet (key ∷ rest) d h =
        or_next-keeps (try_keys env clock peer packet rest) (try_key env clock peer packet key d)
          (try_keys-keeps env clock peer packet rest) (try_key-keeps env clock peer packet key d h)

    pub on_unknown-keeps :
        (env : Env S) (clock : Clock) (peer : A) (packet : List ℕ) (d : Dispatcher A F S)
        → Holds P rules d
        → Holds P rules ((on_unknown env clock peer packet d).1)
    unfolding on_unknown
    on_unknown-keeps env clock peer packet d h =
        let tokens = refill (f.of_nat 100) (clock.instant - d.last_trial_regen) d.trial_tokens in
        elim (Bool-cases (not (f.ge tokens (f.of_nat 1)))) [
          | inl q ↦ rw q h
          | inr q ↦ rw q (try_keys-keeps env clock peer packet (keys d.users.access_keys) _ h)
        ]
