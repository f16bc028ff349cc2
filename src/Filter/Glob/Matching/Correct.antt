-- ===== src/Filter/Glob/Matching/Correct.antt =====
-- `glob` of ostp-dns/src/filter.rs answers what the pattern matches.
use mathlib.Core.Bool.{or-false}
use ostp.Prelude.{
  ℕ, ◌≡◌, refl, sym, ap, ◌∙◌, subst, Bool, true, false, ◌||◌, Option, none, some, List, [], ◌∷◌,
  ◌++◌, drop, ◌==◌, arith, Bool-cases, inl, inr,
}
use ostp.Filter.Glob.{asterisk, only_stars, Step, back, glob_step}
use ostp.Filter.Glob.Matching.{some_end, matches}
use ostp.Filter.Glob.Matching.Lemmas.{IsPlain, later_star, no_room, some_end-extends}

matches-empty : (p : List ℕ) → matches p [] ≡ only_stars p
unfolding matches only_stars some_end
matches-empty [] = refl
matches-empty (x ∷ p) = elim (Bool-cases (x == asterisk)) [
  | inl q ↦ rw q (matches-empty p)
  | inr q ↦ rw q refl
]

-- What is still to be found out: the rest of the pattern against the rest of the text, or a longer run
-- of the last asterisk.
abbrev pub longer_run : Option (List ℕ × List ℕ) → Bool
longer_run none = false
longer_run (some (after, mark)) = some_end (matches after) (drop 1 mark)

abbrev pub answer : Step → Bool
answer (Step.done b) = b
answer (Step.next p t star) = matches p t || longer_run star

-- The run of the last asterisk ended before plain bytes that were matched.
abbrev pub Fits : List ℕ → List ℕ → Option (List ℕ × List ℕ) → Type 0
Fits p t none = Unit
Fits p t (some (after, mark)) =
    (lits : List ℕ) × IsPlain lits × (after ≡ lits ++ p) × (mark ≡ lits ++ t) × IsPlain mark

abbrev pub IsGood : Step → Type 0
IsGood (Step.done b) = Unit
IsGood (Step.next p t star) = IsPlain t × Fits p t star

some_end-again : (f : List ℕ → Bool) (t : List ℕ) → f t || some_end f (drop 1 t) ≡ some_end f t
unfolding some_end
some_end-again f [] = elim (Bool-cases (f [])) [ inl q ↦ rw q refl | inr q ↦ rw q refl ]
some_end-again f (c ∷ t) = refl

-- A longer run of the last asterisk.
back-answer :
    (p t : List ℕ) (star : Option (List ℕ × List ℕ))
    → matches p t ≡ false
    → answer (Step.next p t star) ≡ answer (back star)
back-answer p t none h = rw h refl
back-answer p t (some (after, mark)) h = rw h (sym (some_end-again (matches after) (drop 1 mark)))

drop-IsPlain : (t : List ℕ) → IsPlain t → IsPlain (drop 1 t)
drop-IsPlain [] h = tt
drop-IsPlain (c ∷ t) h = h.1

back-IsGood : (p t : List ℕ) (star : Option (List ℕ × List ℕ)) → Fits p t star → IsGood (back star)
back-IsGood p t none h = tt
back-IsGood p t (some (after, mark)) (lits, plain, e, e', whole) =
    let rest = drop-IsPlain mark whole in (rest, ([], tt, refl, refl, rest))

no_longer :
    (p : List ℕ) (star : Option (List ℕ × List ℕ))
    → Fits p [] star
    → only_stars p ≡ false
    → longer_run star ≡ false
unfolding some_end
no_longer p none h q = refl
no_longer p (some (after, [])) ([], plain, e, e', whole) q = rw e (matches-empty p ∙ q)
no_longer p (some (after, [])) (x ∷ lits, plain, e, e', whole) q = absurd cc
no_longer p (some (after, c ∷ m)) (lits, plain, e, e', whole) q = rw e (no_room lits p m c plain e')

-- At the end of the text.
end-answer :
    (p : List ℕ) (star : Option (List ℕ × List ℕ))
    → Fits p [] star
    → answer (Step.next p [] star) ≡ only_stars p
end-answer p star h = elim (Bool-cases (only_stars p)) [
  | inl q ↦ rw (matches-empty p, q) refl
  | inr q ↦ rw (matches-empty p, q) (no_longer p star h q)
]

-- A new asterisk takes over from the last one.
star-answer :
    (p : List ℕ) (d : ℕ) (t : List ℕ) (star : Option (List ℕ × List ℕ))
    → Fits (asterisk ∷ p) (d ∷ t) star
    → some_end (matches p) (d ∷ t) || longer_run star ≡ some_end (matches p) (d ∷ t)
unfolding matches
star-answer p d t none h = or-false (some_end (matches p) (d ∷ t))
star-answer p d t (some (after, [])) ([], plain, e, e', whole) = absurd cc
star-answer p d t (some (after, [])) (x ∷ lits, plain, e, e', whole) = absurd cc
star-answer p d t (some (after, c ∷ m)) (lits, plain, e, e', whole) =
    elim (Bool-cases (some_end (matches after) m)) [
      | inr q ↦ rw q (or-false (some_end (matches p) (d ∷ t)))
      | inl q ↦
          let (y, v, rest, good) =
            later_star lits (asterisk ∷ p) (d ∷ t) c m plain e'
              (subst (λ a. some_end (matches a) m ≡ true) e q) in
          let here : some_end (matches p) (d ∷ t) ≡ true =
            subst (λ u. some_end (matches p) u ≡ true) (sym rest)
              (some_end-extends (matches p) y v good) in
          rw here refl
    ]

append_one : (lits : List ℕ) (x : ℕ) (t : List ℕ) → lits ++ (x ∷ t) ≡ (lits ++ (x ∷ [])) ++ t
append_one [] x t = refl
append_one (y ∷ lits) x t = ap (◌∷◌ y) (append_one lits x t)

IsPlain-one :
    (lits : List ℕ) (x : ℕ) → IsPlain lits → (x == asterisk) ≡ false → IsPlain (lits ++ (x ∷ []))
IsPlain-one [] x h e = (e, tt)
IsPlain-one (y ∷ lits) x h e = (h.0, IsPlain-one lits x h.1 e)

-- A plain byte was matched.
Fits-one :
    (x : ℕ) (p t : List ℕ) (star : Option (List ℕ × List ℕ))
    → (x == asterisk) ≡ false
    → Fits (x ∷ p) (x ∷ t) star
    → Fits p t star
Fits-one x p t none e h = tt
Fits-one x p t (some (after, mark)) e (lits, plain, e1, e2, whole) = (
  lits ++ (x ∷ []),
  IsPlain-one lits x plain e,
  e1 ∙ append_one lits x p,
  e2 ∙ append_one lits x t,
  whole,
)

matches_nothing : (c : ℕ) (t : List ℕ) → matches [] (c ∷ t) ≡ false
unfolding matches
matches_nothing c t = refl

matches-same :
    (x c : ℕ) (p t : List ℕ)
    → (x == asterisk) ≡ false
    → (x == c) ≡ true
    → matches (x ∷ p) (c ∷ t) ≡ matches p t
unfolding matches
matches-same x c p t e q = rw (e, q) refl

matches-star :
    (x : ℕ) (p t : List ℕ) → (x == asterisk) ≡ true → matches (x ∷ p) t ≡ some_end (matches p) t
unfolding matches
matches-star x p t e = rw e refl

matches-other :
    (x c : ℕ) (p t : List ℕ)
    → (x == asterisk) ≡ false
    → (x == c) ≡ false
    → matches (x ∷ p) (c ∷ t) ≡ false
unfolding matches
matches-other x c p t e q = rw (e, q) refl

pub step-answer :
    (p t : List ℕ) (star : Option (List ℕ × List ℕ))
    → IsPlain t
    → Fits p t star
    → (answer (Step.next p t star) ≡ answer (glob_step p t star)) × IsGood (glob_step p t star)
unfolding glob_step
step-answer p [] star plain h = (end-answer p star h, tt)
step-answer [] (c ∷ t) star plain h =
    (back-answer [] (c ∷ t) star (matches_nothing c t), back-IsGood [] (c ∷ t) star h)
step-answer (x ∷ p) (c ∷ t) star plain h = elim (Bool-cases (x == c)) [
  | inl q ↦
      let same : x ≡ c = ground (arith, q) in
      let bare : (x == asterisk) ≡ false = rw same plain.0 in
      rw q (
        ap (λ b. b || longer_run star) (matches-same x c p t bare q),
        (plain.1, Fits-one x p t star bare (subst (λ c. Fits (x ∷ p) (c ∷ t) star) (sym same) h)),
      )
  | inr q ↦ elim (Bool-cases (x == asterisk)) [
    | inl r ↦
        let same : x ≡ asterisk = ground (arith, r) in
        rw (q, r)
          (
            ap (λ b. b || longer_run star) (matches-star x p (c ∷ t) r)
                ∙ (star-answer p c t star (subst (λ x. Fits (x ∷ p) (c ∷ t) star) same h)
                    ∙ sym (some_end-again (matches p) (c ∷ t))),
            (plain, ([], tt, refl, refl, plain)),
          )
    | inr r ↦
        rw (q, r)
          (
            back-answer (x ∷ p) (c ∷ t) star (matches-other x c p t r q),
            back-IsGood (x ∷ p) (c ∷ t) star h,
          )
  ]
]
