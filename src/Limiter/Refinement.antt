-- ===== src/Limiter/Refinement.antt =====
-- The limiter of ostp-server/src/transport/limiter.rs against what it promises: a window for each address that
-- is never swept.
use ostp.Prelude.{
  ℕ, ◌+◌, ◌-◌, ◌≤◌, ◌≡◌, refl, ap, Bool, true, false, Option, none, some, List, [], ◌∷◌, ltb, leb,
  if◌then◌else◌, arith, Bool-cases, inl, inr, sym, subst,
}
use ostp.Dict.{Key, lookup, if_kept, IsUnique}
use ostp.Dict.Laws.{lookup-insert, lookup-retain, insert-IsUnique, retain-IsUnique}
use ostp.Limiter.{
  ConnLimiter, new_limiter, window, prune_every, entry_of, count, prune, check_at, check_all,
}

-- The abstract limiter: the window of every address.
abbrev pub Windows : Type 0 → Type 0
Windows A = A → Option (ℕ × ℕ)

-- Times that do not fall, from one on.
abbrev pub InOrder : {A : Type 0} → ℕ → List (A × ℕ) → Type 0
InOrder now [] = Unit
InOrder now ((ip, t) ∷ rest) = (now ≤ t) × InOrder t rest

-- A window is that of the abstract limiter, or was swept after it had passed.
Agree : ℕ → Option (ℕ × ℕ) → Option (ℕ × ℕ) → Type 0
Agree now none none = Unit
Agree now (some e) none = ⊥
Agree now none (some (n, start)) = start + window ≤ now
Agree now (some e) (some e') = e ≡ e'

Agree-later :
    (now later : ℕ) (o o' : Option (ℕ × ℕ)) → now ≤ later → Agree now o o' → Agree later o o'
unfolding Agree
Agree-later now later none none le h = tt
Agree-later now later (some e) none le h = h
Agree-later now later none (some (n, start)) le h = omega arith
Agree-later now later (some e) (some e') le h = h

Agree-kept :
    (now : ℕ) (o o' : Option (ℕ × ℕ))
    → Agree now o o'
    → Agree now (if_kept (λ v. ltb (now - v.1) window) o) o'
unfolding Agree
Agree-kept now none o' h = h
Agree-kept now (some (n, start)) none h = absurd h
Agree-kept now (some (n, start)) (some (n', start')) h =
    let same : start ≡ start' = ap (λ e. e.1) h in
    elim (Bool-cases (ltb (now - start) window)) [
      | inl q ↦ rw q h
      | inr q ↦ rw q (ground (arith, q, same))
    ]

same_count :
    (now : ℕ) (o o' : Option (ℕ × ℕ))
    → Agree now o o'
    → count now (entry_of now o) ≡ count now (entry_of now o')
unfolding Agree count
same_count now none none h = refl
same_count now (some e) none h = absurd h
same_count now none (some (n, start)) h =
    let full : leb window (now - start) ≡ true = ground arith in
    let fresh : leb window (now - now) ≡ false = ground arith in rw (full, fresh) refl
same_count now (some e) (some e') h = ap (count now) h

Agree-same : (now : ℕ) (o o' : Option (ℕ × ℕ)) → o ≡ o' → Agree now o o'
unfolding Agree
Agree-same now none none h = tt
Agree-same now none (some e) h = absurd cc
Agree-same now (some e) none h = absurd cc
Agree-same now (some e) (some e') h = cc

module _ {A : Type 0} ⦃k : Key A⦄ where
  unfoldable pub admit : A → ℕ → Windows A → Bool × Windows A
  unfolding count
  admit ip now w =
      let counted = count now (entry_of now (w ip)) in
      (counted.0, λ j. if k.beq ip j then some counted.1 else w j)

  unfoldable pub admit_all : List (A × ℕ) → Windows A → List Bool
  unfolding admit
  admit_all [] w = []
  admit_all ((ip, now) ∷ rest) w = let r = admit ip now w in r.0 ∷ admit_all rest r.1

  record Refines (now : ℕ) (l : ConnLimiter A) (w : Windows A) : Type 0 where
    unique : IsUnique l.windows
    agree : (ip : A) → Agree now (lookup ip l.windows) (w ip)

  prune-Refines :
      (now : ℕ) (l : ConnLimiter A) (w : Windows A) → Refines now l w → Refines now (prune now l) w
  unfolding prune
  prune-Refines now l w r = elim (Bool-cases (leb prune_every (now - l.last_prune))) [
    | inr q ↦ rw q r
    | inl q ↦
        let p : ℕ × ℕ → Bool = λ v. ltb (now - v.1) window in
        rw q (record {
          unique = retain-IsUnique (λ x. p x.1) l.windows r.unique;
          agree = λ ip.
              subst (λ o. Agree now o (w ip)) (sym (lookup-retain p ip l.windows r.unique))
                (Agree-kept now (lookup ip l.windows) (w ip) (r.agree ip));
        })
  ]

  check-Refines :
      (ip : A) (now : ℕ) (l : ConnLimiter A) (w : Windows A)
      → Refines now l w
      → ((check_at ip now l).0 ≡ (admit ip now w).0)
        × Refines now ((check_at ip now l).1) ((admit ip now w).1)
  unfolding check_at admit
  check-Refines ip now l w r =
      let pruned = prune-Refines now l w r in
      let same = same_count now (lookup ip (prune now l).windows) (w ip) (pruned.agree ip) in
      (
        ap (λ c. c.0) same,
        record {
          unique = insert-IsUnique ip _ (prune now l).windows pruned.unique;
          agree = λ j.
              rw (lookup-insert j ip _ (prune now l).windows) (elim (Bool-cases (k.beq ip j)) [
                | inl q ↦ rw q (Agree-same now _ _ (ap (λ c. some c.1) same))
                | inr q ↦ rw q (pruned.agree j)
              ]);
        },
      )

  all-Refines :
      (requests : List (A × ℕ)) (now : ℕ) (l : ConnLimiter A) (w : Windows A)
      → InOrder now requests
      → Refines now l w
      → check_all requests l ≡ admit_all requests w
  unfolding check_all admit_all
  all-Refines [] now l w order r = refl
  all-Refines ((ip, t) ∷ rest) now l w order r =
      let at : Refines t l w = record {
        unique = r.unique;
        agree = λ j. Agree-later now t _ _ order.0 (r.agree j);
      } in
      let step = check-Refines ip t l w at in
      rw (step.0, all-Refines rest t _ _ order.1 step.1) refl

  -- Whatever addresses try to connect, at times that do not fall, the limiter answers as one that
  -- keeps a window for every address for ever: sweeping stale windows is never seen.
  pub check_all-refines :
      (requests : List (A × ℕ)) (now : ℕ)
      → InOrder now requests
      → check_all requests (new_limiter now) ≡ admit_all requests (λ ip. none)
  unfolding Agree lookup
  check_all-refines requests now order =
      all-Refines requests now (new_limiter now) (λ ip. none) order
        (record { unique = tt; agree = λ ip. tt })
