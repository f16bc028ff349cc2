-- ===== src/Reorder/Rising.antt =====
-- The steps of the receive sequence of ostp-core/src/protocol.rs: what a frame accepted or a gap
-- skipped delivers, in the order of the nonces.
use ostp.Prelude.{
  ℕ, suc, ◌+◌, ◌≤◌, ◌<◌, ◌≡◌, ap, subst, false, List, [], ◌∷◌, ◌++◌, length, arith, inl, inr,
  Bool-cases, ltb, ◌==◌, u64_max, All, All-left, All-right,
}
use ostp.Reorder.{insert, Drained, drain_all, accept, skip_gap, deliver_first}
use ostp.Reorder.Sorted.{
  Above, Above-mono, insert-Above, Consecutive, bit, Drains, Drains-first, drain-Drains,
}

module _ {ℓ} {A : Type ℓ} where
  -- Nonces rise strictly, from `lo` on and below `hi`.
  abbrev pub Rises : ℕ → ℕ → List (ℕ × A) → Type 0
  Rises lo hi [] = lo ≤ hi
  Rises lo hi ((k, a) ∷ r) = (lo ≤ k) × Rises (suc k) hi r

  pub Rises-append :
      (lo mid hi : ℕ) (xs ys : List (ℕ × A))
      → Rises lo mid xs
      → Rises mid hi ys
      → Rises lo hi (xs ++ ys)
  Rises-append lo mid hi [] [] p q = omega arith
  Rises-append lo mid hi [] (y ∷ ys) p q = (omega arith, q.1)
  Rises-append lo mid hi ((k, a) ∷ xs) ys p q = (p.0, Rises-append (suc k) mid hi xs ys p.1 q)

  pub Rises-mono : (lo lo' hi : ℕ) (xs : List (ℕ × A)) → lo' ≤ lo → Rises lo hi xs → Rises lo' hi xs
  Rises-mono lo lo' hi [] h p = omega arith
  Rises-mono lo lo' hi (x ∷ xs) h p = (omega arith, p.1)

  Consecutive-Rises :
      (e hi : ℕ) (xs : List (ℕ × A)) → Consecutive e xs → e + length xs ≡ hi → Rises e hi xs
  Consecutive-Rises e hi [] c h = omega arith
  Consecutive-Rises e hi ((k, a) ∷ xs) c h =
      (omega arith, rw c.0 (Consecutive-Rises (suc e) hi xs c.1 (omega arith)))

  abbrev pub Below : List (ℕ × A) → Type 0
  Below m = All (λ x. x.0 < u64_max) m

  Consecutive-le :
      (e : ℕ) (xs : List (ℕ × A))
      → Consecutive e xs
      → Below xs
      → e ≤ u64_max
      → e + length xs ≤ u64_max
  Consecutive-le e [] c b h = omega arith
  Consecutive-le e ((k, a) ∷ xs) c b h =
      omega (arith, Consecutive-le (suc e) xs c.1 b.1 (omega (arith, c.0, b.0)))

  pub insert-All {κ} :
      (P : ℕ × A → Type κ) (n : ℕ) (a : A) (m : List (ℕ × A))
      → P (n, a)
      → All P m
      → All P (insert n a m)
  unfolding insert
  insert-All P n a [] p h = (p, tt)
  insert-All P n a ((k, b) ∷ m) p h = ground (arith, insert-All P n a m p h.1)

  -- What the sequence keeps between arrivals: the buffer holds, in order, only nonces above the
  -- expected one, and every nonce leaves room for a next one.
  pub record IsOrdered (e : ℕ) (m : List (ℕ × A)) : Type ℓ where
    pub small : e ≤ u64_max
    pub above : Above (suc e) m
    pub below : All (λ x. x.0 < u64_max) m

  -- One arrival: its deliveries rise from the old expected nonce to below the new one.
  pub record Advances (e : ℕ) (d : Drained A) : Type ℓ where
    pub rises : Rises e d.expected d.delivered
    pub ordered : IsOrdered d.expected d.buffer

  -- Below the end of the nonces a drain is never cut short.
  pub Drains-count :
      (e : ℕ) (m : List (ℕ × A)) (d : Drained A)
      → e ≤ u64_max
      → Below m
      → Drains e m d
      → (e + length d.delivered ≡ d.expected) × (d.expected ≤ u64_max)
  Drains-count e m d small b s =
      let all = subst (All (λ (x : ℕ × A). x.0 < u64_max)) s.whole b in
      let taken = All-left (λ (x : ℕ × A). x.0 < u64_max) d.delivered d.buffer all in
      let room = Consecutive-le e d.delivered s.run taken small in
      let alive : d.exhausted ≡ false = elim (Bool-cases d.exhausted) [
        | inr q ↦ q
        | inl q ↦ absurd (omega (arith, s.last q, room, s.count, ap bit q))
      ] in
      (omega (arith, s.count, ap bit alive), omega (arith, s.count, ap bit alive))

  Drains-Advances :
      (lo e : ℕ) (m : List (ℕ × A)) (d : Drained A)
      → lo ≤ e
      → e ≤ u64_max
      → Below m
      → Drains e m d
      → Advances lo d
  Drains-Advances lo e m d le small b s =
      let (count, room) = Drains-count e m d small b s in
      record {
        rises =
            Rises-mono e lo d.expected d.delivered le
              (Consecutive-Rises e d.expected d.delivered s.run count);
        ordered = record {
          small = room;
          above = s.above;
          below =
              All-right (λ (x : ℕ × A). x.0 < u64_max) d.delivered d.buffer
                (subst (All (λ (x : ℕ × A). x.0 < u64_max)) s.whole b);
        };
      }

  -- The expected frame in front of the buffer.
  pub hit-Drains :
      (e : ℕ) (a : A) (m : List (ℕ × A))
      → e < u64_max
      → Above (suc e) m
      → Drains e ((e, a) ∷ m) (deliver_first e a (drain_all (e + 1) m))
  unfolding drain_all
  hit-Drains e a m small above = Drains-first e a m _ (
      drain-Drains (length m) (e + 1) m (omega arith) (omega arith)
        (Above-mono {lo = suc e} {lo' = e + 1} m (omega arith) above))

  pub accept-Advances :
      (most n : ℕ) (a : A) (e : ℕ) (m : List (ℕ × A))
      → e ≤ n
      → n < u64_max
      → IsOrdered e m
      → Advances e (accept most n a e m)
  unfolding accept
  accept-Advances most n a e m le small v = elim (Bool-cases (n == e)) [
    | inl q ↦
        let same : n ≡ e = ground arith in
        let more : (e == u64_max) ≡ false = ground arith in
        rw (q, more, same)
          (Drains-Advances e e ((e, a) ∷ m) _ (omega arith) v.small (omega arith, v.below)
            (hit-Drains e a m (omega arith) v.above))
    | inr q ↦ rw q (record {
      rises = omega arith;
      ordered = record {
        small = v.small;
        above = ground (arith, insert-Above (suc e) n a m, v.above);
        below = elim (Bool-cases (ltb (length m) most)) [
          | inl room ↦ rw room (insert-All (λ (x : ℕ × A). x.0 < u64_max) n a m small v.below)
          | inr full ↦ rw full v.below
        ];
      };
    })
  ]

  pub skip_gap-Advances : (e : ℕ) (m : List (ℕ × A)) → IsOrdered e m → Advances e (skip_gap e m)
  unfolding skip_gap drain_all
  skip_gap-Advances e [] v = record { rises = omega arith; ordered = v }
  skip_gap-Advances e ((k, b) ∷ m) v =
      Drains-Advances e k ((k, b) ∷ m) _ (omega (arith, v.above.0)) (omega (arith, v.below.0))
        v.below
        (drain-Drains (suc (length m)) k ((k, b) ∷ m) (omega arith) (omega (arith, v.below.0))
          (omega arith, v.above.1))
