-- ===== src/Dispatcher/Expiry.antt =====
-- Which sessions `on_tick` of ostp-server/src/dispatcher.rs keeps.
pub mod Living
use ostp.Prelude.{
  ◌↔◌, ℕ, ◌≡◌, refl, sym, ap, ◌∙◌, Bool, true, not, Option, none, some, List, [], ◌∷◌, map, ◌==◌,
  if◌then◌else◌, retain, arith, Bool-cases, inl, inr,
}
use ostp.Dispatcher.Expiry.Living.{IsLive, kept-IsLive}
use ostp.External.{F64}
use ostp.Outcome.{Outcome, ok, err, panic}
use ostp.Machine.{ProtocolMachine, ProtocolConfig, ProtocolAction, OstpEvent, Env}
use ostp.Machine.Events.{on_event}
use ostp.Dict.{Key, Dict, lookup, contains, is_some, if_kept, IsUnique, bytes_key, nat_key}
use ostp.Dict.Laws.{lookup-insert, lookup-remove, lookup-retain, insert-IsUnique, remove-IsUnique}
use ostp.Users.{Users, UserMeta, get_or_create_user_stats, stats_of, change_stats, is_admitted}
use ostp.Dispatcher.{Dispatcher, PeerState, Clock, new}
use ostp.Dispatcher.Known.{drop_session, drop_found}
use ostp.Dispatcher.Calls.{
  tick_all, ticked, drop_all, create_all, mark_expired, clean_up, on_tick, is_expired,
}
use ostp.Dispatcher.Rules.{Rules}
use ostp.Dispatcher.Life.{Call, run, run-keeps}

-- Counters that are created do not change who is admitted.
pub stats_of-create :
    (unix : ℕ) (key other : List ℕ) (u : Users)
    → stats_of unix key (get_or_create_user_stats unix other u) ≡ stats_of unix key u
unfolding get_or_create_user_stats change_stats stats_of
stats_of-create unix key other u =
    let at = lookup-insert key other (stats_of unix other u) u.user_stats in
    elim (Bool-cases (bytes_key.beq other key)) [
      | inr q ↦ rw (at, q) refl
      | inl q ↦
          let same : other ≡ key = (bytes_key.beq_iff other key).0 q in rw (at, q) (rw same refl)
    ]

pub is_admitted-create :
    (unix : ℕ) (key other : List ℕ) (u : Users)
    → is_admitted unix key (get_or_create_user_stats unix other u) ≡ is_admitted unix key u
unfolding is_admitted get_or_create_user_stats change_stats
is_admitted-create unix key other u = rw (stats_of-create unix key other u) refl

lookup_none :
    {V W : Type 0} (o : Option V) (o' : Option W) → is_some o ≡ is_some o' → o' ≡ none → o ≡ none
lookup_none none o' h e = refl
lookup_none (some v) none h e = absurd cc
lookup_none (some v) (some w) h e = absurd cc

module _ {A F S : Type 0} ⦃k : Key A⦄ ⦃f : F64 F⦄ where
  is_admitted-create_all :
      (unix : ℕ) (key : List ℕ) (m : Dict ℕ (PeerState A F S)) (u : Users)
      → is_admitted unix key (create_all unix m u) ≡ is_admitted unix key u
  unfolding create_all
  is_admitted-create_all unix key [] u = refl
  is_admitted-create_all unix key ((sid, ps) ∷ m) u =
      is_admitted-create_all unix key m (get_or_create_user_stats unix ps.access_key u)
      ∙ is_admitted-create unix key ps.access_key u

  pub lookup-drop_session :
      (unix sid other : ℕ) (d : Dispatcher A F S)
      → lookup sid (drop_session unix other d).peer_machines
        ≡ (if other == sid then none else lookup sid d.peer_machines)
  unfolding drop_session
  lookup-drop_session unix sid other d = go (lookup other d.peer_machines) refl
    where
      go :
          (o : Option (PeerState A F S))
          → lookup other d.peer_machines ≡ o
          → lookup sid (drop_found unix other o d).peer_machines
            ≡ (if other == sid then none else lookup sid d.peer_machines)
      go (some ps) at = lookup-remove sid other d.peer_machines
      go none at = elim (Bool-cases (other == sid)) [
        | inl q ↦
            let same : other ≡ sid = ground (arith, q) in
            rw q (ap (λ i. lookup i d.peer_machines) (sym same) ∙ at)
        | inr q ↦ rw q refl
      ]

  lookup-drop_all :
      (unix sid : ℕ) {V : Type 0} (gone : Dict ℕ V) (d : Dispatcher A F S)
      → lookup sid (drop_all unix (map (λ x. x.0) gone) d).peer_machines
        ≡ (if contains sid gone then none else lookup sid d.peer_machines)
  unfolding drop_all lookup
  lookup-drop_all unix sid [] d = refl
  lookup-drop_all unix sid ((other, v) ∷ gone) d =
      let rest = lookup-drop_all unix sid gone (drop_session unix other d) in
      let here = lookup-drop_session unix sid other d in
      elim (Bool-cases (other == sid)) [
        | inl q ↦ rw q (rest ∙ ground (arith, here, q))
        | inr q ↦ rw q (rest ∙ ground (arith, here, q))
      ]

  lookup-ticked :
      (i sid : ℕ) (ps : PeerState A F S) (rest : Dict ℕ (PeerState A F S))
      (r : Outcome ProtocolAction × ProtocolMachine F S)
      (next : Outcome (List (List ℕ × A)) × Dict ℕ (PeerState A F S))
      → contains i (next.1) ≡ contains i rest
      → contains i ((ticked sid ps rest r next).1) ≡ (if sid == i then true else contains i rest)
  unfolding lookup
  lookup-ticked i sid ps rest (panic, m) next h = ground arith
  lookup-ticked i sid ps rest (err e, m) next h = ground (arith, h)
  lookup-ticked i sid ps rest (ok action, m) (ok frames, rest') h = ground (arith, h)
  lookup-ticked i sid ps rest (ok action, m) (err e, rest') h = ground (arith, h)
  lookup-ticked i sid ps rest (ok action, m) (panic, rest') h = ground (arith, h)

  contains-tick_all :
      (env : Env S) (now i : ℕ) (m : Dict ℕ (PeerState A F S))
      → contains i ((tick_all env now m).1) ≡ contains i m
  unfolding tick_all lookup
  contains-tick_all env now i [] = refl
  contains-tick_all env now i ((sid, ps) ∷ m) =
      lookup-ticked i sid ps m (on_event env now OstpEvent.tick ps.machine) (tick_all env now m)
        (contains-tick_all env now i m)
      ∙ ground arith

  ticked-IsUnique :
      (sid : ℕ) (ps : PeerState A F S) (rest : Dict ℕ (PeerState A F S))
      (r : Outcome ProtocolAction × ProtocolMachine F S)
      (next : Outcome (List (List ℕ × A)) × Dict ℕ (PeerState A F S))
      → lookup sid rest ≡ none
      → contains sid (next.1) ≡ contains sid rest
      → IsUnique rest
      → IsUnique (next.1)
      → IsUnique ((ticked sid ps rest r next).1)
  ticked-IsUnique sid ps rest (panic, m) next fresh h u v = (fresh, u)
  ticked-IsUnique sid ps rest (err e, m) (r, rest') fresh h u v = (lookup_none _ _ h fresh, v)
  ticked-IsUnique sid ps rest (ok action, m) (ok frames, rest') fresh h u v =
      (lookup_none _ _ h fresh, v)
  ticked-IsUnique sid ps rest (ok action, m) (err e, rest') fresh h u v =
      (lookup_none _ _ h fresh, v)
  ticked-IsUnique sid ps rest (ok action, m) (panic, rest') fresh h u v =
      (lookup_none _ _ h fresh, v)

  tick_all-IsUnique :
      (env : Env S) (now : ℕ) (m : Dict ℕ (PeerState A F S))
      → IsUnique m
      → IsUnique ((tick_all env now m).1)
  unfolding tick_all
  tick_all-IsUnique env now [] u = tt
  tick_all-IsUnique env now ((sid, ps) ∷ m) u =
      ticked-IsUnique sid ps m (on_event env now OstpEvent.tick ps.machine) (tick_all env now m) u.0
        (contains-tick_all env now sid m) u.1 (tick_all-IsUnique env now m u.1)

  IsUnique-Rules : Rules {A = A} {F = F} {S = S} (λ m r. IsUnique m)
  IsUnique-Rules = record {
    put = λ env now event sid old new m r at e h. insert-IsUnique sid new m h;
    leave = λ sid m r h. remove-IsUnique sid m h;
    join = λ env config now noise packet sid key new unix ts payload m r e room fresh h.
        insert-IsUnique sid new m h;
    forget = λ unix m r h. h;
    refuse = λ unix ts payload m r fresh h. h;
    age = λ unix m r h. h;
    tick = λ env now m r h. tick_all-IsUnique env now m h;
  }

  kept_unless :
      (p : PeerState A F S → Bool) (o : Option (PeerState A F S))
      → (if is_some (if_kept p o) then none else o) ≡ if_kept (λ ps. not (p ps)) o
  kept_unless p none = refl
  kept_unless p (some ps) = elim (Bool-cases (p ps)) [ inl q ↦ rw q refl | inr q ↦ rw q refl ]

  pub kept_same :
      (p q : PeerState A F S → Bool) (o : Option (PeerState A F S))
      → ((ps : PeerState A F S) → p ps ≡ q ps)
      → if_kept p o ≡ if_kept q o
  kept_same p q none h = refl
  kept_same p q (some ps) h = rw (h ps) refl

  is_expired-create_all :
      (clock : Clock) (m : Dict ℕ (PeerState A F S)) (u : Users) (ps : PeerState A F S)
      → not (is_expired clock (create_all clock.unix m u) ps) ≡ not (is_expired clock u ps)
  unfolding is_expired
  is_expired-create_all clock m u ps = rw (is_admitted-create_all clock.unix ps.access_key m u) refl

  lookup-clean_up :
      (clock : Clock) (d : Dispatcher A F S) (sid : ℕ)
      → IsUnique d.peer_machines
      → lookup sid (clean_up clock d).1.peer_machines
        ≡ if_kept (λ ps. not (is_expired clock d.users ps)) (lookup sid d.peer_machines)
  unfolding clean_up mark_expired
  lookup-clean_up clock d sid u =
      let users = create_all clock.unix d.peer_machines d.users in
      let p = is_expired clock users in
      lookup-drop_all clock.unix sid (retain (λ x. p x.1) d.peer_machines)
        ((mark_expired clock d).1)
      ∙ (rw (lookup-retain p sid d.peer_machines u) (kept_unless p (lookup sid d.peer_machines))
          ∙ kept_same _ _ (lookup sid d.peer_machines)
              (is_expired-create_all clock d.peer_machines d.users))

module _ {A F S : Type 0} ⦃k : Key A⦄ ⦃f : F64 F⦄ where
  pub on_tick-keeps :
      (env : Env S) (now : Clock) (d : Dispatcher A F S) (sid : ℕ)
      → IsUnique d.peer_machines
      → contains sid ((on_tick env now d).1.peer_machines)
        ≡ is_some (if_kept (λ ps. not (is_expired now d.users ps)) (lookup sid d.peer_machines))
  unfolding on_tick
  on_tick-keeps env now d sid u =
      contains-tick_all env now.instant sid ((clean_up now d).1.peer_machines)
      ∙ ap is_some (lookup-clean_up now d sid u)

pub run-IsUnique :
    {A S : Type 0} (F : Type 0) ⦃k : Key A⦄ ⦃f : F64 F⦄ (clock : Clock) (config : ProtocolConfig)
    (access_keys : Dict (List ℕ) UserMeta) (calls : List (Call A S))
    → IsUnique (run calls (new {A = A} {F = F} {S = S} clock config access_keys)).peer_machines
unfolding new
run-IsUnique F clock config access_keys calls =
    run-keeps (λ m r. IsUnique m) IsUnique-Rules calls _ tt

-- Whatever happened to a server, after a tick it holds a session exactly if it held it before and the
-- session is not closed, was heard of within ten minutes, and its user is registered and below the
-- limit of traffic.
pub tick_keeps_the_living :
    {A S : Type 0} (F : Type 0) ⦃k : Key A⦄ ⦃f : F64 F⦄ (clock : Clock) (config : ProtocolConfig)
    (access_keys : Dict (List ℕ) UserMeta) (calls : List (Call A S)) (env : Env S) (now : Clock)
    (sid : ℕ)
    → let d = run calls (new {A = A} {F = F} {S = S} clock config access_keys) in
      (contains sid ((on_tick env now d).1.peer_machines) ≡ true)
      ↔ ((ps : PeerState A F S) × (lookup sid d.peer_machines ≡ some ps) × IsLive now d.users ps)
tick_keeps_the_living F clock config access_keys calls env now sid =
    let d = run calls (new clock config access_keys) in
    let kept = on_tick-keeps env now d sid (run-IsUnique F clock config access_keys calls) in
    let live = kept-IsLive now d.users (lookup sid d.peer_machines) in
    (λ h. live.0 (sym kept ∙ h), λ h. kept ∙ live.1 h)
