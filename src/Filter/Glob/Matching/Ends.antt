-- ===== src/Filter/Glob/Matching/Ends.antt =====
-- The loop of `glob` in ostp-dns/src/filter.rs ends.
use mathlib.Core.Bool.{or-false}
use ostp.Prelude.{
  ℕ, zero, suc, ◌+◌, ◌*◌, ◌≤◌, ◌<◌, ◌≡◌, refl, sym, ap, ◌∙◌, Bool, Option, none, some, List, [],
  ◌∷◌, length, ◌==◌, arith, Bool-cases, inl, inr,
}
use native.Mathlib.Nat.{mul-le-mul_right}
use ostp.Filter.Glob.{asterisk, Step, back, glob_step, glob_loop, glob}
use ostp.Filter.Glob.Matching.{matches}
use ostp.Filter.Glob.Matching.Lemmas.{IsPlain}
use ostp.Filter.Glob.Matching.Correct.{answer, IsGood, step-answer}

-- How far the loop is from its end: the runs that the last asterisk can still have, and the pattern.
abbrev runs : List ℕ → Option (List ℕ × List ℕ) → ℕ
runs t none = length t
runs t (some (after, mark)) = length mark

-- What is left of the pattern and the text fits in them.
abbrev Within : ℕ → Step → Type 0
Within size (Step.done b) = Unit
Within size (Step.next p t none) = length p ≤ size
Within size (Step.next p t (some (after, mark))) =
    (length p ≤ size) × (length after ≤ size) × (length t ≤ length mark)

abbrev Enough : ℕ → ℕ → Step → Type 0
Enough size fuel (Step.done b) = Unit
Enough size fuel (Step.next p t star) = runs t star * (size + 1) + length p < fuel

rounds_suc : (n size : ℕ) → (n + 1) * (size + 1) ≡ n * (size + 1) + (size + 1)
rounds_suc n size = ground arith

rounds_le : (m n size : ℕ) → m ≤ n → m * (size + 1) ≤ n * (size + 1)
rounds_le m n size h = mul-le-mul_right (size + 1) h

back-Ends :
    (size fuel c : ℕ) (p t : List ℕ) (star : Option (List ℕ × List ℕ))
    → Within size (Step.next p (c ∷ t) star)
    → Enough size (suc fuel) (Step.next p (c ∷ t) star)
    → Within size (back star) × Enough size fuel (back star)
back-Ends size fuel c p t none w e = (tt, tt)
back-Ends size fuel c p t (some (after, [])) w e = absurd (omega (arith, w.2))
back-Ends size fuel c p t (some (after, d ∷ m)) w e =
    ((w.1, w.1, omega arith), omega (arith, e, w.1, rounds_suc (length m) size))

step-Ends :
    (size fuel : ℕ) (p t : List ℕ) (star : Option (List ℕ × List ℕ))
    → Within size (Step.next p t star)
    → Enough size (suc fuel) (Step.next p t star)
    → Within size (glob_step p t star) × Enough size fuel (glob_step p t star)
unfolding glob_step
step-Ends size fuel p [] star w e = (tt, tt)
step-Ends size fuel [] (c ∷ t) star w e = back-Ends size fuel c [] t star w e
step-Ends size fuel (x ∷ p) (c ∷ t) star w e = elim (Bool-cases (x == c)) [
  | inl q ↦ rw q (same star w e)
  | inr q ↦ elim (Bool-cases (x == asterisk)) [
    | inl r ↦ rw (q, r) (starred star w e)
    | inr r ↦ rw (q, r) (back-Ends size fuel c (x ∷ p) t star w e)
  ]
]
  where
    same :
        (star : Option (List ℕ × List ℕ))
        → Within size (Step.next (x ∷ p) (c ∷ t) star)
        → Enough size (suc fuel) (Step.next (x ∷ p) (c ∷ t) star)
        → Within size (Step.next p t star) × Enough size fuel (Step.next p t star)
    same none w e = (omega (arith, w), omega (arith, e, rounds_suc (length t) size))
    same (some (after, mark)) w e =
        ((omega (arith, w.0), w.1, omega (arith, w.2)), omega (arith, e))

    starred :
        (star : Option (List ℕ × List ℕ))
        → Within size (Step.next (x ∷ p) (c ∷ t) star)
        → Enough size (suc fuel) (Step.next (x ∷ p) (c ∷ t) star)
        → Within size (Step.next p (c ∷ t) (some (p, c ∷ t)))
          × Enough size fuel (Step.next p (c ∷ t) (some (p, c ∷ t)))
    starred none w e = ((omega (arith, w), omega (arith, w), omega arith), omega (arith, e))
    starred (some (after, mark)) w e = (
      (omega (arith, w.0), omega (arith, w.0), omega arith),
      omega (arith, e, rounds_le (length (c ∷ t)) (length mark) size w.2),
    )

loop-ends :
    (size fuel : ℕ) (s : Step)
    → IsGood s
    → Within size s
    → Enough size fuel s
    → glob_loop fuel s ≡ some (answer s)
unfolding glob_loop
loop-ends size zero (Step.done b) g w e = refl
loop-ends size (suc fuel) (Step.done b) g w e = refl
loop-ends size zero (Step.next p t star) g w e = absurd (omega (arith, e))
loop-ends size (suc fuel) (Step.next p t star) g w e =
    let ends = step-Ends size fuel p t star w e in
    let kept = step-answer p t star g.0 g.1 in
    loop-ends size fuel (glob_step p t star) kept.1 ends.0 ends.1 ∙ ap some (sym kept.0)

loop-some :
    (size fuel : ℕ) (s : Step)
    → Within size s
    → Enough size fuel s
    → (b : Bool) × (glob_loop fuel s ≡ some b)
unfolding glob_loop
loop-some size zero (Step.done b) w e = (b, refl)
loop-some size (suc fuel) (Step.done b) w e = (b, refl)
loop-some size zero (Step.next p t star) w e = absurd (omega (arith, e))
loop-some size (suc fuel) (Step.next p t star) w e =
    let ends = step-Ends size fuel p t star w e in
    loop-some size fuel (glob_step p t star) ends.0 ends.1

-- The loop ends on every pattern and text: as many rounds as the text has bytes and one, each with as
-- many steps as the pattern has bytes and one, are enough for an answer.
pub glob_ends : (pattern text : List ℕ) → (b : Bool) × (glob pattern text ≡ some b)
unfolding glob
glob_ends pattern text =
    loop-some (length pattern) ((length text + 1) * (length pattern + 1))
      (Step.next pattern text none) (omega arith)
      (omega (arith, rounds_suc (length text) (length pattern)))

-- On a text without an asterisk `glob` ends, and answers whether the pattern matches, its asterisks
-- any run of bytes and its other bytes themselves.
pub glob-matches :
    (pattern text : List ℕ) → IsPlain text → glob pattern text ≡ some (matches pattern text)
unfolding glob
glob-matches pattern text plain =
    loop-ends (length pattern) ((length text + 1) * (length pattern + 1))
      (Step.next pattern text none) (plain, tt) (omega arith)
      (omega (arith, rounds_suc (length text) (length pattern)))
    ∙ ap some (or-false (matches pattern text))
