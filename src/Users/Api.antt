-- ===== src/Users/Api.antt =====
-- The handlers of ostp-server/src/api.rs that change the users. Whether the caller's token is right and
-- whether the configuration file is saved are arguments, as is what the random generators draw for
-- new keys; a handler is not interleaved with another.
use ostp.Prelude.{ℕ, zero, suc, Bool, not, Option, none, some, List, [], ◌∷◌, ltb, if◌then◌else◌}
use ostp.Dict.{Dict, lookup, insert, remove, bytes_key}
use ostp.Users.{Users, UserMeta, UserStats, new_stats, set_user_limit}

-- `api_unauthorized`, `api_error` and `ApiResponse::success`, with the keys that were created.
pub data ApiAnswer : Type 0 where
  unauthorized user_not_found not_saved count_too_large : ApiAnswer
  success : List (List ℕ) → ApiAnswer

pub data ApiRequest : Type 0 where
  -- the key, if one is wanted, the one drawn, the name and the limit
  create_user : Option (List ℕ) → List ℕ → Option (List ℕ) → Option ℕ → ApiRequest
  delete_user : List ℕ → ApiRequest
  update_user : List ℕ → Option (List ℕ) → Option ℕ → ApiRequest
  set_limit : List ℕ → Option ℕ → ApiRequest
  reset_stats : List ℕ → ApiRequest
  -- the count, the keys drawn for it, and the limit
  bulk_create : ℕ → (ℕ → List ℕ) → Option ℕ → ApiRequest

abbrev pub after_save : Bool → ApiAnswer → Users → ApiAnswer × Users
after_save saved answer u = (if saved then answer else ApiAnswer.not_saved, u)

abbrev pub key_or : List ℕ → Option (List ℕ) → List ℕ
key_or drawn none = drawn
key_or drawn (some key) = key

unfoldable pub handle_create_user :
    Bool → ℕ → List ℕ → Option (List ℕ) → Option ℕ → Users → ApiAnswer × Users
handle_create_user saved unix key name limit u =
    after_save saved (ApiAnswer.success (key ∷ [])) (record {
      access_keys = insert key (record { name = name; limit_bytes = limit }) u.access_keys;
      user_stats = insert key (new_stats limit unix) u.user_stats;
    })

abbrev pub delete_found : Bool → List ℕ → Users → Option UserMeta → ApiAnswer × Users
delete_found saved key u none = (ApiAnswer.user_not_found, u)
delete_found saved key u (some meta) =
    after_save saved (ApiAnswer.success [])
      (record { access_keys = remove key u.access_keys; user_stats = remove key u.user_stats })

unfoldable pub handle_delete_user : Bool → List ℕ → Users → ApiAnswer × Users
handle_delete_user saved key u = delete_found saved key u (lookup key u.access_keys)

abbrev pub update_found :
    Bool → ℕ → List ℕ → Option (List ℕ) → Option ℕ → Users → Option UserMeta → ApiAnswer × Users
update_found saved unix key name limit u none = (ApiAnswer.user_not_found, u)
update_found saved unix key name limit u (some meta) = after_save saved (ApiAnswer.success []) (
    set_user_limit unix key limit (record u {
      access_keys = insert key (record { name = name; limit_bytes = limit }) u.access_keys;
    }))

unfoldable pub handle_update_user :
    Bool → ℕ → List ℕ → Option (List ℕ) → Option ℕ → Users → ApiAnswer × Users
unfolding set_user_limit
handle_update_user saved unix key name limit u =
    update_found saved unix key name limit u (lookup key u.access_keys)

abbrev pub limit_found : Bool → ℕ → List ℕ → Option ℕ → Users → Option UserMeta → ApiAnswer × Users
limit_found saved unix key limit u none = (ApiAnswer.user_not_found, u)
limit_found saved unix key limit u (some meta) = after_save saved (ApiAnswer.success []) (
    set_user_limit unix key limit
      (record u { access_keys = insert key (record meta { limit_bytes = limit }) u.access_keys }))

unfoldable pub handle_set_limit : Bool → ℕ → List ℕ → Option ℕ → Users → ApiAnswer × Users
unfolding set_user_limit
handle_set_limit saved unix key limit u =
    limit_found saved unix key limit u (lookup key u.access_keys)

abbrev pub reset_found : ℕ → List ℕ → Users → Option UserStats → ApiAnswer × Users
reset_found unix key u none = (ApiAnswer.user_not_found, u)
reset_found unix key u (some us) = (
  ApiAnswer.success [],
  record u { user_stats = insert key (new_stats us.limit_bytes unix) u.user_stats },
)

unfoldable pub handle_reset_stats : ℕ → List ℕ → Users → ApiAnswer × Users
handle_reset_stats unix key u = reset_found unix key u (lookup key u.user_stats)

-- The keys that are drawn, in their order, from a draw on.
unfoldable pub draw_keys : ℕ → ℕ → (ℕ → List ℕ) → List (List ℕ)
draw_keys from zero drawn = []
draw_keys from (suc n) drawn = drawn from ∷ draw_keys (suc from) n drawn

unfoldable pub insert_all :
    List (List ℕ) → Option ℕ → Dict (List ℕ) UserMeta → Dict (List ℕ) UserMeta
insert_all [] limit keys = keys
insert_all (key ∷ rest) limit keys =
    insert_all rest limit (insert key (record { name = none; limit_bytes = limit }) keys)

-- Whether the file was saved does not matter here.
unfoldable pub handle_bulk_create_users : ℕ → (ℕ → List ℕ) → Option ℕ → Users → ApiAnswer × Users
unfolding draw_keys insert_all
handle_bulk_create_users count drawn limit u =
    let new_keys = draw_keys 0 count drawn in
    if ltb 1000 count then (ApiAnswer.count_too_large, u) else (
      ApiAnswer.success new_keys,
      record u { access_keys = insert_all new_keys limit u.access_keys },
    )

-- A request, once its token was checked.
unfoldable pub serve : Bool → ℕ → ApiRequest → Users → ApiAnswer × Users
unfolding handle_create_user handle_delete_user handle_update_user handle_set_limit
    handle_reset_stats handle_bulk_create_users
serve saved unix (ApiRequest.create_user wanted drawn name limit) u =
    handle_create_user saved unix (key_or drawn wanted) name limit u
serve saved unix (ApiRequest.delete_user key) u = handle_delete_user saved key u
serve saved unix (ApiRequest.update_user key name limit) u =
    handle_update_user saved unix key name limit u
serve saved unix (ApiRequest.set_limit key limit) u = handle_set_limit saved unix key limit u
serve saved unix (ApiRequest.reset_stats key) u = handle_reset_stats unix key u
serve saved unix (ApiRequest.bulk_create count drawn limit) u =
    handle_bulk_create_users count drawn limit u

unfoldable pub handle : Bool → Bool → ℕ → ApiRequest → Users → ApiAnswer × Users
unfolding serve
handle authorized saved unix request u =
    if not authorized then (ApiAnswer.unauthorized, u) else serve saved unix request u
