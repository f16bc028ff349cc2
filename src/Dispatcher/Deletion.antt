-- ===== src/Dispatcher/Deletion.antt =====
-- A user is deleted through ostp-server/src/api.rs while ostp-server/src/dispatcher.rs has sessions of it.
use ostp.Prelude.{
  ℕ, ◌≡◌, refl, ap, ◌∙◌, Bool, true, false, not, ◌||◌, ◌&&◌, Bool-cases, inl, inr, none, List,
}
use ostp.External.{F64}
use ostp.Outcome.{ok}
use ostp.Machine.{ProtocolConfig, Env}
use ostp.Dict.{
  Key, Dict, lookup, contains, is_some, if_kept, nat_key, bytes_key, bytes_eq, bytes_eq_iff,
}
use ostp.Dict.Laws.{beq_self}
use ostp.Users.{Users, UserMeta, is_admitted, get_or_create_user_stats}
use ostp.Users.Api.{ApiRequest, handle}
use ostp.Users.Admission.{deleted_user_stays_out}
use ostp.Dispatcher.{PeerState, DispatchOutcome, Clock, new}
use ostp.Dispatcher.Known.{on_known, drop_session}
use ostp.Dispatcher.Calls.{on_tick, is_expired}
use ostp.Dispatcher.Life.{Call, step, run}
use ostp.Dispatcher.Expiry.{
  run-IsUnique, on_tick-keeps, is_admitted-create, lookup-drop_session, kept_same,
}

or_true : (a b : Bool) → a || (b || true) ≡ true
or_true true b = refl
or_true false true = refl
or_true false false = refl

module _ {A F S : Type 0} ⦃k : Key A⦄ ⦃f : F64 F⦄ where
  out-is_expired :
      (now : Clock) (u : Users) (ps : PeerState A F S)
      → is_admitted now.unix ps.access_key u ≡ false
      → not (is_expired now u ps) ≡ false
  unfolding is_expired
  out-is_expired now u ps h = rw (h, or_true _ _) refl

  others_kept :
      (now : Clock) (u : Users) (key : List ℕ) (ps : PeerState A F S)
      → is_admitted now.unix key u ≡ false
      → not (is_expired now u ps) ≡ not (bytes_eq ps.access_key key) && not (is_expired now u ps)
  others_kept now u key ps h = elim (Bool-cases (bytes_eq ps.access_key key)) [
    | inr q ↦ rw q refl
    | inl q ↦
        let same : ps.access_key ≡ key = (bytes_eq_iff ps.access_key key).0 q in
        rw q (out-is_expired now u ps (ap (λ x. is_admitted now.unix x u) same ∙ h))
  ]

-- When a user is deleted, whatever happened to the server before, the next tick leaves only sessions
-- of other users, those of them that are alive; and a datagram of a session of the user that comes
-- before the tick is refused and ends the session.
pub deleted_user_loses_sessions :
    {A S : Type 0} (F : Type 0) ⦃k : Key A⦄ ⦃f : F64 F⦄ (clock : Clock) (config : ProtocolConfig)
    (access_keys : Dict (List ℕ) UserMeta) (calls : List (Call A S)) (saved : Bool) (unix : ℕ)
    (env : Env S) (now : Clock) (peer : A) (packet : List ℕ) (sid : ℕ) (ps : PeerState A F S)
    → let d = run calls (new {A = A} {F = F} {S = S} clock config access_keys) in
      let users = (handle true saved unix (ApiRequest.delete_user ps.access_key) d.users).1 in
      let deleted = step (Call.set_users users) d in
      (contains sid ((on_tick env now deleted).1.peer_machines)
        ≡ is_some (
            if_kept
              (λ other.
                not (bytes_eq other.access_key ps.access_key) && not (is_expired now users other))
              (lookup sid d.peer_machines)))
      × ((on_known env now peer packet sid ps deleted).0 ≡ ok DispatchOutcome.unauthorized)
      × (contains sid ((on_known env now peer packet sid ps deleted).1.peer_machines) ≡ false)
unfolding step on_known
deleted_user_loses_sessions F clock config access_keys calls saved unix env now peer packet sid ps =
    let d = run calls (new clock config access_keys) in
    let users = (handle true saved unix (ApiRequest.delete_user ps.access_key) d.users).1 in
    let out = deleted_user_stays_out saved unix now.unix ps.access_key d.users in
    let made = get_or_create_user_stats now.unix ps.access_key users in
    let refused = is_admitted-create now.unix ps.access_key ps.access_key users ∙ out in
    let gone : lookup sid (drop_session now.unix sid (record d { users = made })).peer_machines
        ≡ none =
      lookup-drop_session now.unix sid sid (record d { users = made }) ∙ rw (beq_self sid) refl in
    (
      on_tick-keeps env now (record d { users = users }) sid
            (run-IsUnique F clock config access_keys calls)
          ∙ ap is_some (
              kept_same _ _ (lookup sid d.peer_machines)
                (λ other. others_kept now users ps.access_key other out)),
      rw refused refl,
      rw refused (ap is_some gone),
    )
