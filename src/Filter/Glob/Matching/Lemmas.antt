-- ===== src/Filter/Glob/Matching/Lemmas.antt =====
-- Ends of a text that a pattern of ostp-dns/src/filter.rs matches.
use mathlib.Core.List.{append_assoc}
use ostp.Prelude.{
  ℕ, ◌≤◌, ◌≡◌, refl, sym, ap, ◌∙◌, Bool, true, false, ◌&&◌, List, [], ◌∷◌, ◌++◌, length, ◌==◌,
  arith, Bool-cases, inl, inr, All, length-append,
}
use ostp.Filter.Glob.{asterisk}
use ostp.Filter.Glob.Matching.{some_end, matches}

-- No byte is an asterisk.
abbrev pub IsPlain : List ℕ → Type 0
IsPlain t = All (λ c. (c == asterisk) ≡ false) t

pub some_end-splits :
    (f : List ℕ → Bool) (t : List ℕ)
    → some_end f t ≡ true
    → (x : List ℕ) × (u : List ℕ) × (t ≡ x ++ u) × (f u ≡ true)
unfolding some_end
some_end-splits f [] h = ([], [], refl, h)
some_end-splits f (c ∷ t) h = elim (Bool-cases (f (c ∷ t))) [
  | inl q ↦ ([], c ∷ t, refl, q)
  | inr q ↦
      let r = some_end-splits f t (ground (arith, h, q)) in (c ∷ r.0, r.1, ap (◌∷◌ c) r.2, r.3)
]

pub some_end-joins : (f : List ℕ → Bool) (x u : List ℕ) → f u ≡ true → some_end f (x ++ u) ≡ true
unfolding some_end
some_end-joins f [] [] h = h
some_end-joins f [] (c ∷ u) h = rw h refl
some_end-joins f (c ∷ x) u h = rw (some_end-joins f x u h) (ground arith)

pub some_end-extends :
    (f : List ℕ → Bool) (y v : List ℕ) → some_end f v ≡ true → some_end f (y ++ v) ≡ true
unfolding some_end
some_end-extends f [] v h = h
some_end-extends f (c ∷ y) v h = rw (some_end-extends f y v h) (ground arith)

-- What begins with plain bytes matches texts that begin with them.
pub plain-begins :
    (lits q u : List ℕ)
    → IsPlain lits
    → matches (lits ++ q) u ≡ true
    → (v : List ℕ) × (u ≡ lits ++ v) × (matches q v ≡ true)
unfolding matches
plain-begins [] q u plain h = (u, refl, h)
plain-begins (x ∷ lits) q [] plain h = absurd ground (arith, h, plain.0)
plain-begins (x ∷ lits) q (c ∷ u) plain h =
    let step : (x == c) && matches (lits ++ q) u ≡ true = ground (arith, h, plain.0) in
    let same : x ≡ c = ground (arith, step) in
    let r = plain-begins lits q u plain.1 (ground (arith, step)) in
    (r.0, rw same (ap (◌∷◌ c) r.1), r.2)

-- The longer of two beginnings of a text leaves an end of what the shorter leaves.
end_of_rest :
    (lits t a v : List ℕ)
    → lits ++ t ≡ a ++ v
    → length lits ≤ length a
    → (y : List ℕ) × (t ≡ y ++ v)
end_of_rest [] t a v e h = (a, e)
end_of_rest (x ∷ lits) t [] v e h = absurd (omega arith)
end_of_rest (x ∷ lits) t (c ∷ a) v e h =
    let tails : lits ++ t ≡ a ++ v = cc in
    let shorter : length lits ≤ length a = omega (arith, h) in end_of_rest lits t a v tails shorter

-- A run for an earlier asterisk can go to a later one: with the bytes between them matched, the text
-- after these can still match if a longer run of the earlier one did.
pub later_star :
    (lits q t : List ℕ) (c : ℕ) (m : List ℕ)
    → IsPlain lits
    → c ∷ m ≡ lits ++ t
    → some_end (matches (lits ++ q)) m ≡ true
    → (y : List ℕ) × (v : List ℕ) × (t ≡ y ++ v) × (matches q v ≡ true)
later_star lits q t c m plain e h =
    let (x, u, split, hit) = some_end-splits (matches (lits ++ q)) m h in
    let (v, begins, good) = plain-begins lits q u plain hit in
    let whole : lits ++ t ≡ ((c ∷ x) ++ lits) ++ v =
      sym e ∙ (ap (◌∷◌ c) (split ∙ ap (λ u. x ++ u) begins) ∙ sym (append_assoc (c ∷ x) lits v)) in
    let (y, rest) =
      end_of_rest lits t ((c ∷ x) ++ lits) v whole (omega (arith, length-append (c ∷ x) lits)) in
    (y, v, rest, good)

-- At the end of the text a longer run cannot help.
pub no_room :
    (lits p m : List ℕ) (c : ℕ)
    → IsPlain lits
    → c ∷ m ≡ lits ++ []
    → some_end (matches (lits ++ p)) m ≡ false
no_room lits p m c plain e = elim (Bool-cases (some_end (matches (lits ++ p)) m)) [
  | inr q ↦ q
  | inl q ↦
      let (x, u, split, hit) = some_end-splits (matches (lits ++ p)) m q in
      let (v, begins, good) = plain-begins lits p u plain hit in
      absurd (
        omega (
          arith,
          ap length e,
          length-append lits [],
          ap length split,
          length-append x u,
          ap length begins,
          length-append lits v,
        ))
]
