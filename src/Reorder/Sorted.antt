-- ===== src/Reorder/Sorted.antt =====
-- The buffer is in the strict order of its keys; what that says of `insert`, `remove` and `drain`.
use ostp.Prelude.{
  ℕ, zero, suc, ◌+◌, ◌≤◌, ◌<◌, ◌≡◌, refl, sym, ap, subst, Bool, true, false, none, some, List, [],
  ◌∷◌, ◌++◌, length, arith, inl, inr, Bool-cases, ◌==◌, if◌then◌else◌, u64_max, ◌⊎◌,
}
use ostp.Reorder.{insert, remove, Drained, drain, deliver_first}

abbrev pub bit : Bool → ℕ
bit true = 1
bit false = 0

module _ {ℓ} {A : Type ℓ} where
  -- Keys rise strictly from a bound on.
  abbrev pub Above : ℕ → List (ℕ × A) → Type 0
  Above lo [] = Unit
  Above lo ((k, b) ∷ m) = (lo ≤ k) × Above (suc k) m

  pub Above-mono : {lo lo' : ℕ} (m : List (ℕ × A)) → lo' ≤ lo → Above lo m → Above lo' m
  Above-mono [] h s = tt
  Above-mono ((k, b) ∷ m) h s = (omega arith, s.1)

  pub insert-Above :
      (lo n : ℕ) (a : A) (m : List (ℕ × A)) → lo ≤ n → Above lo m → Above lo (insert n a m)
  unfolding insert
  insert-Above lo n a [] h s = (h, tt)
  insert-Above lo n a ((k, b) ∷ m) h s = ground (
    arith,
    insert-Above (suc k) n a m,
    λ (p : n ≡ k). Above-mono {lo = suc k} {lo' = suc n} m (omega arith) s.1,
  )

  pub length-insert-le : (n : ℕ) (a : A) (m : List (ℕ × A)) → length (insert n a m) ≤ length m + 1
  unfolding insert
  length-insert-le n a [] = omega arith
  length-insert-le n a ((k, b) ∷ m) = ground (arith, length-insert-le n a m)

  -- Nothing is found below the bound.
  remove_below : (lo n : ℕ) (m : List (ℕ × A)) → n < lo → Above lo m → remove n m ≡ none
  unfolding remove
  remove_below lo n [] h s = refl
  remove_below lo n ((k, b) ∷ m) h s = ground (arith, remove_below (suc k) n m)

  -- With all keys at least `e`, either `e` is the first key and is removed, or all are above it.
  pub remove_first :
      (e : ℕ) (m : List (ℕ × A))
      → Above e m
      → ((a : A) × (m' : List (ℕ × A)) × (m ≡ (e, a) ∷ m')
          × (remove e m ≡ some (a, m'))
          × Above (suc e) m')
        ⊎ ((remove e m ≡ none) × Above (suc e) m)
  unfolding remove
  remove_first e [] s = inr (refl, tt)
  remove_first e ((k, b) ∷ m) s = elim (Bool-cases (e == k)) [
    | inl q ↦
        let k_eq : k ≡ e = ground arith in
        inl (
          b,
          m,
          ap (λ x. (x, b) ∷ m) k_eq,
          rw q,
          Above-mono {lo = suc k} {lo' = suc e} m (omega arith) s.1,
        )
    | inr q ↦ inr (ground (arith, remove_below (suc k) e m), ground arith)
  ]

  -- The nonces count up from `e`.
  abbrev pub Consecutive : ℕ → List (ℕ × A) → Type 0
  Consecutive e [] = Unit
  Consecutive e ((k, a) ∷ r) = (k ≡ e) × Consecutive (suc e) r

  -- `d` is `m` with the entries from `e` on, without a gap, taken off its front.
  pub record Drains (e : ℕ) (m : List (ℕ × A)) (d : Drained A) : Type ℓ where
    pub whole : m ≡ d.delivered ++ d.buffer
    pub run : Consecutive e d.delivered
    pub count : d.expected + bit d.exhausted ≡ e + length d.delivered
    pub above : Above (suc d.expected) d.buffer
    pub last : d.exhausted ≡ true → d.expected ≡ u64_max

  pub Drains-first :
      (e : ℕ) (a : A) (m : List (ℕ × A)) (d : Drained A)
      → Drains (e + 1) m d
      → Drains e ((e, a) ∷ m) (deliver_first e a d)
  Drains-first e a m d s =
      let next : e + 1 ≡ suc e = omega arith in
      record {
        whole = ap (λ r. (e, a) ∷ r) s.whole;
        run = (refl, subst (λ x. Consecutive x d.delivered) next s.run);
        count = omega (arith, s.count);
        above = s.above;
        last = s.last;
      }

  pub drain_stops :
      (fuel e : ℕ) (m : List (ℕ × A))
      → remove e m ≡ none
      → drain (suc fuel) e m
        ≡ record { delivered = []; expected = e; buffer = m; exhausted = false }
  unfolding drain
  drain_stops fuel e m q = rw (q, drain)

  pub drain_goes :
      (fuel e : ℕ) (m m' : List (ℕ × A)) (a : A)
      → remove e m ≡ some (a, m')
      → drain (suc fuel) e m ≡ (
          if e == u64_max
          then record { delivered = (e, a) ∷ []; expected = e; buffer = m'; exhausted = true }
          else deliver_first e a (drain fuel (e + 1) m'))
  unfolding drain
  drain_goes fuel e m m' a q = rw (q, drain)

  pub drain-Drains :
      (fuel e : ℕ) (m : List (ℕ × A))
      → length m ≤ fuel
      → e ≤ u64_max
      → Above e m
      → Drains e m (drain fuel e m)
  unfolding drain
  drain-Drains zero e [] h small s = record {
    whole = refl;
    run = tt;
    count = omega arith;
    above = tt;
    last = λ h. cc;
  }
  drain-Drains zero e (x ∷ m) h small s = absurd (omega arith)
  drain-Drains (suc fuel) e m h small s = elim (remove_first e m s) [
    | inr (q, above) ↦
        subst (Drains e m) (sym (drain_stops fuel e m q))
          (record { whole = refl; run = tt; count = omega arith; above = above; last = λ h. cc })
    | inl (a, m', shape, q, above) ↦
        subst (Drains e m) (sym (drain_goes fuel e m m' a q)) (elim (Bool-cases (e == u64_max)) [
          | inl last ↦ rw last (record {
            whole = shape;
            run = (refl, tt);
            count = omega arith;
            above = above;
            last = λ h. ground arith;
          })
          | inr more ↦ rw more (
              subst (λ x. Drains e x (deliver_first e a (drain fuel (e + 1) m'))) (sym shape)
                (Drains-first e a m' _ (
                  drain-Drains fuel (e + 1) m' (omega (arith, ap length shape)) (ground arith)
                    (Above-mono {lo = suc e} {lo' = e + 1} m' (omega arith) above))))
        ])
  ]
