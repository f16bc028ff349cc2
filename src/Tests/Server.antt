-- ===== src/Tests/Server.antt =====
-- The server on concrete inputs: a handshake, its session, and what ends it.
use ostp.Prelude.{
  ℕ, ◌&&◌, true, false, some, min, ◌≡◌, ◌≤◌, refl, not, none, List, [], ◌∷◌, ◌++◌, length,
  to_be_bytes, All, arith, ◌↔◌, ◌⊎◌,
}
use ostp.Dispatcher.Expiry.Living.{IsLive}
use ostp.Outcome.{ok}
use ostp.Noise.{NoiseRole}
use ostp.Machine.{ProtocolConfig}
use ostp.Machine.Session.Keys.{IsKeyed}
use ostp.Machine.Session.Nonces.{IsFresh}
use ostp.Dict.Keys.{bytes_eq}
use ostp.Dict.{Dict, insert, lookup, contains, is_some, if_kept, nat_key, bytes_key}
use ostp.Obfuscation.{deobfuscate_packet_inplace}
use ostp.Users.{UserMeta, is_admitted, Users, reaches, stats_of}
use ostp.Dispatcher.{
  DispatchOutcome, Dispatcher, PeerState, Clock, new, max_sessions, replay_cache_max,
}
use ostp.Dispatcher.Known.{on_known}
use ostp.Dispatcher.Calls.{on_tick, is_expired}
use ostp.Dispatcher.Life.{Call, step, run}
use ostp.Dispatcher.Bounds.{server_bounds}
use ostp.Dispatcher.Sessions.{server_sessions_sound}
use ostp.Dispatcher.Expiry.{tick_keeps_the_living}
use ostp.Dispatcher.Roaming.{AnswersAt, Stays, only_fresh_redirects}
use ostp.Machine.Session.Authentic.{IsNewest}
use ostp.Users.Api.{ApiRequest, handle}
use ostp.Users.Admission.{limit_takes_effect, traffic}
use ostp.Dispatcher.Deletion.{deleted_user_loses_sessions}
use ostp.Limiter.{new_limiter, check_all, max_conns}
use ostp.Limiter.Refinement.{admit_all, check_all-refines}
use ostp.Limiter.Budget.{passed, check_all_budget}
use ostp.Tests.World.{whole_numbers, toy_env, toy_config, receiver}

abbrev noon : Clock
noon = record { instant = 5; unix = 1000 }

abbrev server_config : ProtocolConfig
server_config = record toy_config { role = NoiseRole.responder }

-- One user, with the key 65, 66.
abbrev users : Dict (List ℕ) UserMeta
users = (65 ∷ 66 ∷ [], record { name = none; limit_bytes = none }) ∷ []

-- Session 7, at second 1000, under that key.
abbrev hello : List ℕ
hello =
    to_be_bytes 4 7
    ++ (to_be_bytes 2 14 ++ (to_be_bytes 8 1000 ++ (to_be_bytes 4 7 ++ (65 ∷ 66 ∷ []))))

abbrev server : Dispatcher ℕ ℕ ℕ
server = new noon server_config users

abbrev calls : List (Call ℕ ℕ)
calls = Call.datagram toy_env noon 9 hello ∷ Call.tick toy_env noon ∷ []

server_bounds_example :
    (length (run calls server).peer_machines ≤ max_sessions)
    × (length (run calls server).replay_cache ≤ replay_cache_max)
server_bounds_example = server_bounds ℕ noon server_config users calls

server_sessions_sound_example :
    All (λ x. IsKeyed x.1.machine) (run calls server).peer_machines
    × All (λ x. IsFresh x.1.machine) (run calls server).peer_machines
server_sessions_sound_example = server_sessions_sound ℕ noon server_config users calls

-- Eleven minutes later.
abbrev later : Clock
later = record { instant = 660_000_000_000; unix = 1660 }

tick_keeps_the_living_example :
    (contains 7 ((on_tick toy_env later (run calls server)).1.peer_machines) ≡ true) ↔ (
      (ps : PeerState ℕ ℕ ℕ) × (lookup 7 (run calls server).peer_machines ≡ some ps)
      × IsLive later (run calls server).users ps)
tick_keeps_the_living_example =
    tick_keeps_the_living ℕ noon server_config users calls toy_env later 7

-- A session that expects nonce 4, and a datagram with nonce 2 from another address.
abbrev known : PeerState ℕ ℕ ℕ
known = record {
  machine = record receiver { expected_recv_nonce = 4 };
  last_addr = 9;
  obfuscation_key = 5 ∷ [];
  last_seen = 5;
  access_key = 65 ∷ 66 ∷ [];
}

abbrev replay : List ℕ
replay = to_be_bytes 4 1 ++ to_be_bytes 8 2

only_fresh_redirects_example :
    (AnswersAt 9 ((on_known toy_env noon 8 replay 1 known server).0)
      × Stays 1 known server ((on_known toy_env noon 8 replay 1 known server).1))
    ⊎ IsNewest toy_env
        (deobfuscate_packet_inplace toy_env.hash known.machine.obfuscation_key false replay)
        known.machine
unfolding is_admitted new lookup bytes_eq insert
only_fresh_redirects_example = only_fresh_redirects toy_env noon 8 replay 1 known server refl refl

-- Two addresses, and a sweep between.
abbrev knocks : List (ℕ × ℕ)
knocks = (1, 5) ∷ (2, 6) ∷ (2, 70_000_000_000) ∷ []

check_all-refines_example : check_all knocks (new_limiter 5) ≡ admit_all knocks (λ ip. none)
check_all-refines_example =
    check_all-refines knocks 5 (omega arith, (omega arith, (omega arith, tt)))

-- Another address between the attempts of the first.
abbrev mixed_knocks : List (ℕ × ℕ)
mixed_knocks = (1, 50_000_000_000) ∷ (2, 50_000_000_001) ∷ (1, 50_000_000_002) ∷ []

check_all_budget_example :
    passed 1 mixed_knocks (check_all mixed_knocks (new_limiter 5)) ≡ min 2 max_conns
check_all_budget_example =
    check_all_budget 1 5 50_000_000_000 mixed_knocks (omega arith, (omega arith, (omega arith, tt)))
      (
        λ e. (omega arith, omega arith),
        (λ e. absurd (omega (arith, e)), (λ e. (omega arith, omega arith), tt)),
      )
      (omega arith)

-- The user of the session is deleted.
abbrev without_user : Users
without_user =
    (handle true true 1000 (ApiRequest.delete_user (65 ∷ 66 ∷ [])) (run calls server).users).1

deleted_user_loses_sessions_example :
    (contains 7 (
        (on_tick toy_env later
          (step (Call.set_users without_user) (run calls server))).1.peer_machines)
      ≡ is_some (
          if_kept
            (λ other.
              not (bytes_eq other.access_key (65 ∷ 66 ∷ []))
              && not (is_expired later without_user other))
            (lookup 7 (run calls server).peer_machines)))
    × ((on_known toy_env later 9 replay 7 known
          (step (Call.set_users without_user) (run calls server))).0
        ≡ ok DispatchOutcome.unauthorized)
    × (contains 7 (
          (on_known toy_env later 9 replay 7 known
            (step (Call.set_users without_user) (run calls server))).1.peer_machines)
        ≡ false)
deleted_user_loses_sessions_example =
    deleted_user_loses_sessions ℕ noon server_config users calls true 1000 toy_env later 9 replay 7
      known

limit_takes_effect_example :
    is_admitted 2000
      (65 ∷ 66 ∷ [])
      ((handle true true 1000 (ApiRequest.set_limit (65 ∷ 66 ∷ []) (some 5)) server.users).1)
    ≡ not (reaches (traffic (stats_of 1000 (65 ∷ 66 ∷ []) server.users)) (some 5))
unfolding new lookup bytes_eq
limit_takes_effect_example =
    limit_takes_effect true 1000 1000 2000 (65 ∷ 66 ∷ []) (some 5) server.users refl
