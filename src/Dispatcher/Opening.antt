-- ===== src/Dispatcher/Opening.antt =====
-- When ostp-server/src/dispatcher.rs opens a session: what the trial of the access keys on a datagram of
-- no known session does to the dispatcher.
pub mod Trials
use ostp.Prelude.{
  ◌<◌, ◌≤◌, ◌≡◌, true, false, ◌||◌, Option, length, take, drop, ltb, leb, ◌==◌, from_be_bytes,
  arith, ◌⊎◌,
}
use ostp.Outcome.{Outcome}
use ostp.Obfuscation.{DerivedSecrets, current_junk_window}
use ostp.Machine.{ProtocolMachine, ProtocolAction}
use ostp.Dict.{Dict, lookup, insert, contains, bytes_eq, bytes_eq_iff, nat_key, bytes_key}
use ostp.Dict.Laws.{lookup-insert_self}
use ostp.Users.{Users, get_or_create_user_stats, is_over_limit, stats_of}
use ostp.Dispatcher.{Dispatcher, PeerState, max_sessions}
use ostp.Dispatcher.Caches.{cached_secrets, cached_junk_markers}
use ostp.Dispatcher.Handshake.{
  within_drift, admit, check_payload, after_trial, try_machine, try_key,
}
use ostp.Dispatcher.Opening.Trials.{routes, Among, Opens}
