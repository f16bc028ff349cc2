-- ===== src/Dispatcher.antt =====
-- ostp-server/src/dispatcher.rs: the sessions of the server. The state, the caches, and how a datagram
-- finds its session; the operations are in the modules below. A socket address is of any type with an
-- equality. The clocks are read once for a call, and the readings are an argument.
pub mod Caches
pub mod Known
pub mod Handshake
pub mod Calls
pub mod Rules
pub mod Life
pub mod Bounds
pub mod Sessions
pub mod Roaming
pub mod Expiry
pub mod Deletion
pub mod Opening
use ostp.Prelude.{ℕ, ◌-◌, List, [], ◌∷◌}
use ostp.External.{F64}
use ostp.Obfuscation.{DerivedSecrets}
use ostp.Machine.{ProtocolMachine, ProtocolConfig}
use ostp.Dict.{Key, Dict, insert, nat_key, bytes_key}
use ostp.Users.{Users, UserMeta, UserStats, new_stats}

abbrev pub max_sessions : ℕ
max_sessions = 1024

abbrev pub replay_cache_max : ℕ
replay_cache_max = 50_000

-- `Instant::now()` in nanoseconds, and the unix time in seconds.
pub record Clock : Type 0 where
  pub instant : ℕ
  pub unix : ℕ

pub data DispatchOutcome (A : Type 0) : Type 0 where
  unauthorized junk : DispatchOutcome A
  -- the responses, the payloads with their session and stream, and where the responses go
  accepted : List (List ℕ) → List (ℕ × ℕ × List ℕ) → A → DispatchOutcome A

pub record PeerState (A F S : Type 0) : Type 0 where
  pub machine : ProtocolMachine F S
  pub last_addr : A
  pub obfuscation_key : List ℕ
  pub last_seen : ℕ
  pub access_key : List ℕ

pub record Dispatcher (A F S : Type 0) : Type 0 where
  pub peer_machines : Dict ℕ (PeerState A F S)
  pub addr_to_session : Dict A ℕ
  pub machine_config : ProtocolConfig
  pub users : Users
  pub replay_cache : Dict (List ℕ) ℕ
  pub roaming_tokens : F
  pub last_token_regen : ℕ
  pub secrets_cache : Dict (List ℕ) DerivedSecrets
  pub junk_cache : Dict (List ℕ) (ℕ × List ℕ × List ℕ)
  pub trial_tokens : F
  pub last_trial_regen : ℕ

abbrev fresh_stats : ℕ → Dict (List ℕ) UserMeta → Dict (List ℕ) UserStats
fresh_stats unix [] = []
fresh_stats unix ((key, meta) ∷ d) =
    insert key (new_stats meta.limit_bytes unix) (fresh_stats unix d)

module _ {A F S : Type 0} ⦃k : Key A⦄ ⦃f : F64 F⦄ where
  unfoldable pub new : Clock → ProtocolConfig → Dict (List ℕ) UserMeta → Dispatcher A F S
  new clock machine_config access_keys = record {
    peer_machines = [];
    addr_to_session = [];
    machine_config = machine_config;
    users = record { access_keys = access_keys; user_stats = fresh_stats clock.unix access_keys };
    replay_cache = [];
    roaming_tokens = f.of_nat 50;
    last_token_regen = clock.instant;
    secrets_cache = [];
    junk_cache = [];
    trial_tokens = f.of_nat 100;
    last_trial_regen = clock.instant;
  }
