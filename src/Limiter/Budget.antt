-- ===== src/Limiter/Budget.antt =====
-- How many connections ostp-server/src/transport/limiter.rs lets an address open.
use ostp.Prelude.{
  if◌then◌else◌, ℕ, ◌+◌, ◌-◌, ◌%◌, ◌^◌, ◌≤◌, ◌<◌, ◌≡◌, refl, ap, ◌∙◌, Bool, false, none, some, List,
  [], ◌∷◌, leb, min, arith, Bool-cases, inl, inr, All,
}
use ostp.Dict.{Key}
use ostp.Limiter.{new_limiter, window, max_conns, count, check_all}
use ostp.Limiter.Refinement.{Windows, InOrder, admit, admit_all, check_all-refines}

count_within :
    (now n start : ℕ)
    → start ≤ now
    → now < start + window
    → n + 1 < 2 ^ 32
    → count now (n, start) ≡ (leb (n + 1) max_conns, (n + 1, start))
unfolding count
count_within now n start from before small =
    let open_window : leb window (now - start) ≡ false = ground arith in
    let whole : (n + 1) % 2 ^ 32 ≡ n + 1 = omega arith in rw (open_window, whole) refl

one_of_many :
    (n more rest : ℕ)
    → rest ≡ min more (max_conns - (n + 1))
    → (if leb (n + 1) max_conns then 1 else 0) + rest ≡ min (1 + more) (max_conns - n)
one_of_many n more rest h = elim (Bool-cases (leb (n + 1) max_conns)) [
  | inl q ↦ rw q (ground (arith, h, q))
  | inr q ↦ rw q (ground (arith, h, q))
]

module _ {A : Type 0} ⦃k : Key A⦄ where
  -- How often the address tries, and how often it gets in.
  abbrev pub tries : A → List (A × ℕ) → ℕ
  tries ip [] = 0
  tries ip ((other, t) ∷ rest) = (if k.beq other ip then 1 else 0) + tries ip rest

  abbrev pub passed : A → List (A × ℕ) → List Bool → ℕ
  passed ip [] answers = 0
  passed ip (x ∷ rest) [] = 0
  passed ip ((other, t) ∷ rest) (answer ∷ answers) =
      (if k.beq other ip then (if answer then 1 else 0) else 0) + passed ip rest answers

  -- The tries of the address are within ten seconds from a start.
  abbrev pub AreWithin : A → ℕ → List (A × ℕ) → Type 0
  AreWithin ip start = All (λ x. x.0 ≡ ip → (start ≤ x.1) × (x.1 < start + window))

  -- With a window that began since the start, after so many tries.
  passed-window :
      (ip : A) (requests : List (A × ℕ)) (now n start began : ℕ) (w : Windows A)
      → w ip ≡ some (n, began)
      → start ≤ began
      → began ≤ now
      → InOrder now requests
      → AreWithin ip start requests
      → n + tries ip requests < 2 ^ 32
      → passed ip requests (admit_all requests w) ≡ min (tries ip requests) (max_conns - n)
  unfolding admit_all admit
  passed-window ip [] now n start began w at since from order soon small = omega arith
  passed-window ip ((other, t) ∷ rest) now n start began w at since from order soon small =
      elim (Bool-cases (k.beq other ip)) [
        | inr q ↦
            let none_more : 0 + passed ip rest (admit_all rest ((admit other t w).1))
                ≡ passed ip rest (admit_all rest ((admit other t w).1)) =
              omega arith in
            let fewer : 0 + tries ip rest ≡ tries ip rest = omega arith in
            rw (q, none_more, fewer)
              (passed-window ip rest t n start began ((admit other t w).1) (rw q at) since
                (omega (arith, from, order.0)) order.1 soon.1 (ground (arith, small, q)))
        | inl q ↦
            let same : other ≡ ip = (k.beq_iff other ip).0 q in
            let at' : w other ≡ some (n, began) = ap w same ∙ at in
            let less : n + (1 + tries ip rest) < 2 ^ 32 = ground (arith, small, q) in
            let here = soon.0 same in
            let counted =
              count_within t n began (omega (arith, from, order.0)) (omega (arith, here.1, since))
                (omega (arith, less)) in
            let more =
              passed-window ip rest t (n + 1) start began ((admit other t w).1)
                (rw (q, at', counted) refl) since (omega (arith, from, order.0)) order.1 soon.1
                (omega (arith, less)) in
            rw (q, at', counted) (one_of_many n (tries ip rest) _ more)
      ]

  -- With no window yet.
  passed-new :
      (ip : A) (requests : List (A × ℕ)) (now start : ℕ) (w : Windows A)
      → w ip ≡ none
      → InOrder now requests
      → AreWithin ip start requests
      → tries ip requests < 2 ^ 32
      → passed ip requests (admit_all requests w) ≡ min (tries ip requests) max_conns
  unfolding admit_all admit
  passed-new ip [] now start w at order soon small = omega arith
  passed-new ip ((other, t) ∷ rest) now start w at order soon small =
      elim (Bool-cases (k.beq other ip)) [
        | inr q ↦
            let none_more : 0 + passed ip rest (admit_all rest ((admit other t w).1))
                ≡ passed ip rest (admit_all rest ((admit other t w).1)) =
              omega arith in
            let fewer : 0 + tries ip rest ≡ tries ip rest = omega arith in
            rw (q, none_more, fewer)
              (passed-new ip rest t start ((admit other t w).1) (rw q at) order.1 soon.1
                (ground (arith, small, q)))
        | inl q ↦
            let same : other ≡ ip = (k.beq_iff other ip).0 q in
            let at' : w other ≡ none = ap w same ∙ at in
            let less : 1 + tries ip rest < 2 ^ 32 = ground (arith, small, q) in
            let here = soon.0 same in
            let counted = count_within t 0 t (omega arith) (omega arith) (omega arith) in
            let more =
              passed-window ip rest t 1 start t ((admit other t w).1) (rw (q, at', counted) refl)
                here.0 (omega arith) order.1 soon.1 (omega (arith, less)) in
            rw (q, at', counted) (one_of_many 0 (tries ip rest) _ more)
      ]

  -- Among the attempts of whatever addresses, from the creation of the limiter on, an address whose
  -- attempts all fall within ten seconds from some start gets in exactly sixty times, or each time if
  -- it tries less often, whatever the others do; it tries fewer than 2^32 times.
  pub check_all_budget :
      (ip : A) (now start : ℕ) (requests : List (A × ℕ))
      → InOrder now requests
      → AreWithin ip start requests
      → tries ip requests < 2 ^ 32
      → passed ip requests (check_all requests (new_limiter now))
        ≡ min (tries ip requests) max_conns
  check_all_budget ip now start requests order soon small =
      ap (passed ip requests) (check_all-refines requests now order)
      ∙ passed-new ip requests now start (λ j. none) refl order soon small
