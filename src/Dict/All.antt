-- ===== src/Dict/All.antt =====
-- A predicate that all values of a map have.
use ostp.Prelude.{◌≡◌, subst, Bool, retain, some, [], ◌∷◌, Bool-cases, inl, inr, All, arith}
use ostp.Dict.{Key, Dict, lookup, insert, remove}

module _ {K V : Type 0} ⦃e : Key K⦄ (P : V → Type 0) where
  abbrev pub Values : Dict K V → Type 0
  Values d = All (λ x. P x.1) d

  pub Values-lookup : (k : K) (v : V) (d : Dict K V) → Values d → lookup k d ≡ some v → P v
  unfolding lookup
  Values-lookup k v [] h at = absurd cc
  Values-lookup k v ((i, w) ∷ d) h at = elim (Bool-cases (e.beq i k)) [
    | inl q ↦ let same : w ≡ v = ground (arith, at, q) in subst P same h.0
    | inr q ↦ Values-lookup k v d h.1 (ground (arith, at, q))
  ]

  pub Values-insert : (k : K) (v : V) (d : Dict K V) → P v → Values d → Values (insert k v d)
  unfolding insert
  Values-insert k v [] p h = (p, tt)
  Values-insert k v ((i, w) ∷ d) p h = elim (Bool-cases (e.beq i k)) [
    | inl q ↦ rw q (p, h.1)
    | inr q ↦ rw q (h.0, Values-insert k v d p h.1)
  ]

  pub Values-remove : (k : K) (d : Dict K V) → Values d → Values (remove k d)
  unfolding remove
  Values-remove k [] h = tt
  Values-remove k ((i, w) ∷ d) h = elim (Bool-cases (e.beq i k)) [
    | inl q ↦ rw q (Values-remove k d h.1)
    | inr q ↦ rw q (h.0, Values-remove k d h.1)
  ]

  pub Values-retain : (p : K × V → Bool) (d : Dict K V) → Values d → Values (retain p d)
  unfolding retain
  Values-retain p [] h = tt
  Values-retain p ((i, w) ∷ d) h = elim (Bool-cases (p (i, w))) [
    | inl q ↦ rw (q, retain) (h.0, Values-retain p d h.1)
    | inr q ↦ rw (q, retain) (Values-retain p d h.1)
  ]
