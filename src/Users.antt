-- ===== src/Users.antt =====
-- The users of the server: their access keys and traffic counters, which the dispatcher
-- (ostp-server/src/dispatcher.rs) and the management API (ostp-server/src/api.rs) share. A key is
-- its UTF-8 bytes. The two maps are locked one after the other; a call here is not interleaved with
-- another, and the model's map holds the counters that the source's `Arc` points to.
pub mod Api
pub mod Admission
use ostp.Prelude.{ℕ, ◌-◌, Bool, false, not, ◌&&◌, Option, none, some, List, leb, add64}
use ostp.Dict.{Dict, lookup, insert, contains, nat_key, bytes_key}

pub record UserMeta : Type 0 where
  pub name : Option (List ℕ)
  pub limit_bytes : Option ℕ

pub record UserStats : Type 0 where
  pub bytes_up : ℕ
  pub bytes_down : ℕ
  pub connections : ℕ
  pub limit_bytes : Option ℕ
  pub created_at : ℕ

-- `UserStats::new`
abbrev pub new_stats : Option ℕ → ℕ → UserStats
new_stats limit sys = record {
  bytes_up = 0;
  bytes_down = 0;
  connections = 0;
  limit_bytes = limit;
  created_at = sys;
}

abbrev pub reaches : ℕ → Option ℕ → Bool
reaches total none = false
reaches total (some limit) = leb limit total

unfoldable pub is_over_limit : UserStats → Bool
is_over_limit u = reaches (add64 u.bytes_up u.bytes_down) u.limit_bytes

pub record Users : Type 0 where
  pub access_keys : Dict (List ℕ) UserMeta
  pub user_stats : Dict (List ℕ) UserStats

abbrev pub limit_of : Option UserMeta → Option ℕ
limit_of none = none
limit_of (some meta) = meta.limit_bytes

abbrev pub or_new : ℕ → Option UserMeta → Option UserStats → UserStats
or_new sys meta none = new_stats (limit_of meta) sys
or_new sys meta (some stats) = stats

-- What `get_or_create_user_stats` and `get_or_create_stats` return.
unfoldable pub stats_of : ℕ → List ℕ → Users → UserStats
stats_of sys key u = or_new sys (lookup key u.access_keys) (lookup key u.user_stats)

-- A change through the `Arc` that they return.
unfoldable pub change_stats : ℕ → List ℕ → (UserStats → UserStats) → Users → Users
unfolding stats_of
change_stats sys key change u = record u {
  user_stats = insert key (change (stats_of sys key u)) u.user_stats;
}

unfoldable pub get_or_create_user_stats : ℕ → List ℕ → Users → Users
unfolding change_stats
get_or_create_user_stats sys key u = change_stats sys key (λ s. s) u

unfoldable pub track_user_bytes_up : ℕ → List ℕ → ℕ → Users → Users
unfolding change_stats
track_user_bytes_up sys key bytes u =
    change_stats sys key (λ s. record s { bytes_up = add64 s.bytes_up bytes }) u

unfoldable pub track_user_bytes_down : ℕ → List ℕ → ℕ → Users → Users
unfolding change_stats
track_user_bytes_down sys key bytes u =
    change_stats sys key (λ s. record s { bytes_down = add64 s.bytes_down bytes }) u

-- `connections` up by one, and down by one but not below zero.
unfoldable pub connect_user : ℕ → List ℕ → Users → Users
unfolding change_stats
connect_user sys key u =
    change_stats sys key (λ s. record s { connections = add64 s.connections 1 }) u

unfoldable pub disconnect_user : ℕ → List ℕ → Users → Users
unfolding change_stats
disconnect_user sys key u =
    change_stats sys key (λ s. record s { connections = s.connections - 1 }) u

abbrev pub with_limit : Option ℕ → ℕ → Option UserStats → UserStats
with_limit limit sys none = new_stats limit sys
with_limit limit sys (some s) = record s { limit_bytes = limit }

-- `set_user_limit` of the dispatcher, and the last part of `update_user` and `handle_set_limit`.
unfoldable pub set_user_limit : ℕ → List ℕ → Option ℕ → Users → Users
set_user_limit sys key limit u = record u {
  user_stats = insert key (with_limit limit sys (lookup key u.user_stats)) u.user_stats;
}

-- Who may use a key: it is registered and its traffic is below the limit.
unfoldable pub is_admitted : ℕ → List ℕ → Users → Bool
unfolding stats_of is_over_limit
is_admitted sys key u = contains key u.access_keys && not (is_over_limit (stats_of sys key u))
