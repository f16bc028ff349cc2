-- ===== src/Dict/Laws.antt =====
-- The laws of the dictionaries.
use ostp.Prelude.{
  ◌+◌, ◌≤◌, ◌≡◌, refl, sym, Bool, true, none, some, [], ◌∷◌, if◌then◌else◌, arith, length, retain,
  Bool-cases, inl, inr,
}
use ostp.Dict.{Key, Dict, lookup, insert, remove, contains, IsUnique, if_kept}

module _ {ℓ} {K : Type ℓ} ⦃e : Key K⦄ where
  pub beq_self : (k : K) → e.beq k k ≡ true
  beq_self k = (e.beq_iff k k).1 refl

  beq_left : (i j k : K) → e.beq i j ≡ true → e.beq i k ≡ e.beq j k
  beq_left i j k h = rw ((e.beq_iff i j).0 h) refl

  beq_right : (i j k : K) → e.beq j k ≡ true → e.beq i j ≡ e.beq i k
  beq_right i j k h = rw ((e.beq_iff j k).0 h) refl

  beq_sym : (i j : K) → e.beq i j ≡ true → e.beq j i ≡ true
  beq_sym i j h = (e.beq_iff j i).1 (sym ((e.beq_iff i j).0 h))

module _ {ℓ κ} {K : Type ℓ} {V : Type κ} ⦃e : Key K⦄ where
  pub lookup-insert :
      (j k : K) (v : V) (d : Dict K V)
      → lookup j (insert k v d) ≡ (if e.beq k j then some v else lookup j d)
  unfolding lookup insert
  lookup-insert j k v [] = refl
  lookup-insert j k v ((i, w) ∷ d) = elim (Bool-cases (e.beq i k)) [
    | inl same ↦ rw (same, beq_left i k j same) (ground (arith))
    | inr other ↦ rw (other, lookup-insert j k v d) (ground (arith, beq_right i k j))
  ]

  pub lookup-insert_self : (k : K) (v : V) (d : Dict K V) → lookup k (insert k v d) ≡ some v
  lookup-insert_self k v d = rw (lookup-insert k k v d, beq_self k) refl

  pub length-insert :
      (k : K) (v : V) (d : Dict K V)
      → length (insert k v d) ≡ (if contains k d then length d else length d + 1)
  unfolding lookup insert
  length-insert k v [] = omega arith
  length-insert k v ((i, w) ∷ d) = ground (arith, length-insert k v d)

  pub length-insert-le : (k : K) (v : V) (d : Dict K V) → length (insert k v d) ≤ length d + 1
  unfolding insert
  length-insert-le k v [] = omega arith
  length-insert-le k v ((i, w) ∷ d) = ground (arith, length-insert-le k v d)

  pub length-retain : (p : K × V → Bool) (d : Dict K V) → length (retain p d) ≤ length d
  unfolding retain
  length-retain p [] = omega arith
  length-retain p (x ∷ d) = ground (arith, length-retain p d)

  -- What a walk keeps is still found.
  pub lookup-retain_kept :
      (p : K × V → Bool) (k : K) (v : V) (d : Dict K V)
      → lookup k d ≡ some v
      → ((j : K) → e.beq j k ≡ true → p (j, v) ≡ true)
      → lookup k (retain p d) ≡ some v
  unfolding lookup retain
  lookup-retain_kept p k v [] h keep = absurd cc
  lookup-retain_kept p k v ((i, w) ∷ d) h keep = elim (Bool-cases (e.beq i k)) [
    | inl same ↦
        let here : w ≡ v = ground (arith, same) in
        let kept : p (i, w) ≡ true = rw here (keep i same) in ground (arith, kept, same, here)
    | inr other ↦
        let there : lookup k d ≡ some v = rw other at h in
        let ih = lookup-retain_kept p k v d there keep in ground (arith, other, ih)
  ]

  lookup-none-retain :
      (p : K × V → Bool) (k : K) (d : Dict K V) → lookup k d ≡ none → lookup k (retain p d) ≡ none
  unfolding lookup retain
  lookup-none-retain p k [] h = refl
  lookup-none-retain p k ((i, w) ∷ d) h = elim (Bool-cases (e.beq i k)) [
    | inl same ↦ absurd (ground (arith, same))
    | inr other ↦
        let there : lookup k d ≡ none = rw other at h in
        ground (arith, other, lookup-none-retain p k d there)
  ]

  pub retain-IsUnique : (p : K × V → Bool) (d : Dict K V) → IsUnique d → IsUnique (retain p d)
  unfolding retain
  retain-IsUnique p [] u = tt
  retain-IsUnique p ((i, w) ∷ d) u =
      let ih = retain-IsUnique p d u.1 in
      let gone = lookup-none-retain p i d u.0 in ground (arith, ih, gone)

  pub insert-IsUnique : (k : K) (v : V) (d : Dict K V) → IsUnique d → IsUnique (insert k v d)
  unfolding insert lookup
  insert-IsUnique k v [] u = (refl, tt)
  insert-IsUnique k v ((i, w) ∷ d) u = elim (Bool-cases (e.beq i k)) [
    | inl same ↦ rw same (u.0, u.1)
    | inr other ↦
        let new = lookup-insert i k v d in
        rw other (ground (arith, new, u.0, beq_sym k i, other), insert-IsUnique k v d u.1)
  ]

  -- With unique keys a walk that judges the values judges what is found.
  pub lookup-retain :
      (p : V → Bool) (k : K) (d : Dict K V)
      → IsUnique d
      → lookup k (retain (λ x. p x.1) d) ≡ if_kept p (lookup k d)
  unfolding lookup retain
  lookup-retain p k [] u = refl
  lookup-retain p k ((i, w) ∷ d) u = elim (Bool-cases (e.beq i k)) [
    | inl same ↦
        let gone = rw ((e.beq_iff i k).0 same) at u.0 in
        ground (arith, same, lookup-none-retain (λ x. p x.1) k d gone)
    | inr other ↦ ground (arith, other, lookup-retain p k d u.1)
  ]

  pub lookup-remove :
      (j k : K) (d : Dict K V) → lookup j (remove k d) ≡ (if e.beq k j then none else lookup j d)
  unfolding lookup remove
  lookup-remove j k [] = ground arith
  lookup-remove j k ((i, w) ∷ d) =
      ground (arith, lookup-remove j k d, beq_left i k j, beq_right i k j)

  pub remove-IsUnique : (k : K) (d : Dict K V) → IsUnique d → IsUnique (remove k d)
  unfolding remove
  remove-IsUnique k [] u = tt
  remove-IsUnique k ((i, w) ∷ d) u =
      ground (arith, remove-IsUnique k d u.1, lookup-remove i k d, u.0)

  pub length-remove-le : (k : K) (d : Dict K V) → length (remove k d) ≤ length d
  unfolding remove
  length-remove-le k [] = omega arith
  length-remove-le k ((i, w) ∷ d) = ground (arith, length-remove-le k d)

  -- A key that is there leaves.
  pub length-remove :
      (k : K) (d : Dict K V) → contains k d ≡ true → length (remove k d) + 1 ≤ length d
  unfolding remove lookup
  length-remove k [] h = absurd cc
  length-remove k ((i, w) ∷ d) h = ground (arith, length-remove k d, length-remove-le k d)
