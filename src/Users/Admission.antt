-- ===== src/Users/Admission.antt =====
-- What the requests of ostp-server/src/api.rs do to who is admitted.
use ostp.Prelude.{
  ℕ, ◌≡◌, refl, Bool, true, false, not, Option, none, some, List, [], ltb, if◌then◌else◌, add64,
  Bool-cases, inl, inr, ◌⊎◌,
}
use ostp.Dict.{lookup, contains, is_some, nat_key, bytes_key}
use ostp.Dict.Laws.{lookup-insert_self, lookup-remove, beq_self}
use ostp.Users.{
  Users, UserMeta, UserStats, reaches, is_over_limit, stats_of, or_new, with_limit, set_user_limit,
  is_admitted,
}
use ostp.Users.Api.{
  ApiAnswer, ApiRequest, delete_found, update_found, limit_found, reset_found, handle_create_user,
  handle_delete_user, handle_update_user, handle_set_limit, handle_reset_stats,
  handle_bulk_create_users, serve, handle,
}

-- The answers before anything is done.
abbrev pub IsRefusal : ApiAnswer → Type 0
IsRefusal ApiAnswer.unauthorized = Unit
IsRefusal ApiAnswer.user_not_found = Unit
IsRefusal ApiAnswer.count_too_large = Unit
IsRefusal ApiAnswer.not_saved = ⊥
IsRefusal (ApiAnswer.success keys) = ⊥

-- A request that changes the users is answered as done, or as not saved.
no_refusal :
    (saved : Bool) (keys : List (List ℕ))
    → IsRefusal (if saved then ApiAnswer.success keys else ApiAnswer.not_saved)
    → ⊥
no_refusal true keys h = h
no_refusal false keys h = h

serve-refusal :
    (saved : Bool) (unix : ℕ) (request : ApiRequest) (u : Users)
    → IsRefusal ((serve saved unix request u).0)
    → (serve saved unix request u).1 ≡ u
unfolding serve handle_create_user handle_delete_user handle_update_user handle_set_limit
    handle_reset_stats handle_bulk_create_users
serve-refusal saved unix (ApiRequest.create_user wanted drawn name limit) u h =
    absurd (no_refusal saved _ h)
serve-refusal saved unix (ApiRequest.delete_user key) u h = go (lookup key u.access_keys) h
  where
    go :
        (o : Option UserMeta)
        → IsRefusal ((delete_found saved key u o).0)
        → (delete_found saved key u o).1 ≡ u
    go none h = refl
    go (some meta) h = absurd (no_refusal saved [] h)
serve-refusal saved unix (ApiRequest.update_user key name limit) u h =
    go (lookup key u.access_keys) h
  where
    go :
        (o : Option UserMeta)
        → IsRefusal ((update_found saved unix key name limit u o).0)
        → (update_found saved unix key name limit u o).1 ≡ u
    go none h = refl
    go (some meta) h = absurd (no_refusal saved [] h)
serve-refusal saved unix (ApiRequest.set_limit key limit) u h = go (lookup key u.access_keys) h
  where
    go :
        (o : Option UserMeta)
        → IsRefusal ((limit_found saved unix key limit u o).0)
        → (limit_found saved unix key limit u o).1 ≡ u
    go none h = refl
    go (some meta) h = absurd (no_refusal saved [] h)
serve-refusal saved unix (ApiRequest.reset_stats key) u h = go (lookup key u.user_stats) h
  where
    go :
        (o : Option UserStats)
        → IsRefusal ((reset_found unix key u o).0)
        → (reset_found unix key u o).1 ≡ u
    go none h = refl
    go (some us) h = absurd h
serve-refusal saved unix (ApiRequest.bulk_create count drawn limit) u h =
    go (Bool-cases (ltb 1000 count)) h
  where
    go :
        (ltb 1000 count ≡ true) ⊎ (ltb 1000 count ≡ false)
        → IsRefusal ((serve saved unix (ApiRequest.bulk_create count drawn limit) u).0)
        → (serve saved unix (ApiRequest.bulk_create count drawn limit) u).1 ≡ u
    go (inl q) = rw q (λ h. refl)
    go (inr q) = rw q (λ h. absurd h)

-- A request that is refused, for its token, an unknown user or too many keys, leaves the users as
-- they were.
pub refused_request_changes_nothing :
    (authorized saved : Bool) (unix : ℕ) (request : ApiRequest) (u : Users)
    → IsRefusal ((handle authorized saved unix request u).0)
    → (handle authorized saved unix request u).1 ≡ u
unfolding handle
refused_request_changes_nothing true saved unix request u h = serve-refusal saved unix request u h
refused_request_changes_nothing false saved unix request u h = refl

-- The traffic of a user.
abbrev pub traffic : UserStats → ℕ
traffic s = add64 s.bytes_up s.bytes_down

limited-traffic :
    (limit : Option ℕ) (unix unix' : ℕ) (meta : Option UserMeta) (o : Option UserStats)
    → is_over_limit (with_limit limit unix o) ≡ reaches (traffic (or_new unix' meta o)) limit
unfolding is_over_limit
limited-traffic limit unix unix' meta none = refl
limited-traffic limit unix unix' meta (some s) = refl

-- A new limit holds at once, on the traffic that the user already had: from then on the user is
-- admitted exactly if that is below it.
pub limit_takes_effect :
    (saved : Bool) (unix unix' later : ℕ) (key : List ℕ) (limit : Option ℕ) (u : Users)
    → contains key u.access_keys ≡ true
    → is_admitted later key ((handle true saved unix (ApiRequest.set_limit key limit) u).1)
      ≡ not (reaches (traffic (stats_of unix' key u)) limit)
unfolding handle serve handle_set_limit set_user_limit is_admitted stats_of
limit_takes_effect saved unix unix' later key limit u known = go (lookup key u.access_keys) known
  where
    go :
        (o : Option UserMeta)
        → is_some o ≡ true
        → is_admitted later key ((limit_found saved unix key limit u o).1)
          ≡ not (reaches (traffic (stats_of unix' key u)) limit)
    go none h = absurd cc
    go (some meta) h =
        rw
          (
            lookup-insert_self key (record meta { limit_bytes = limit }) u.access_keys,
            lookup-insert_self key (with_limit limit unix (lookup key u.user_stats)) u.user_stats,
            limited-traffic limit unix unix' (lookup key u.access_keys) (lookup key u.user_stats),
          )
          refl

-- A user that was deleted is not admitted.
pub deleted_user_stays_out :
    (saved : Bool) (unix later : ℕ) (key : List ℕ) (u : Users)
    → is_admitted later key ((handle true saved unix (ApiRequest.delete_user key) u).1) ≡ false
unfolding handle serve handle_delete_user is_admitted
deleted_user_stays_out saved unix later key u = go (lookup key u.access_keys) refl
  where
    go :
        (o : Option UserMeta)
        → lookup key u.access_keys ≡ o
        → is_admitted later key ((delete_found saved key u o).1) ≡ false
    go none at = rw at refl
    go (some meta) at = rw (lookup-remove key key u.access_keys, beq_self key) refl
