-- ===== src/Filter/Verdicts.antt =====
-- What the filter of ostp-dns/src/filter.rs decides, whatever the order of its rules.
use mathlib.Core.Bool.{or_assoc}
use ostp.Prelude.{
  ℕ, ◌≡◌, refl, sym, ◌∙◌, Bool, true, false, ◌||◌, Option, none, some, List, [], ◌∷◌, map, ◌==◌,
  if◌then◌else◌, Bool-cases, inl, inr, All,
}
use ostp.Dict.{Dict, lookup, contains, is_some, nat_key, bytes_key}
use ostp.Filter.{
  Kind, Filter, after_dots, label_starts, exact_rule, suffix_rule, with_rule, find_suffix, glob_any,
  wild_hit, find_wild, find, Verdict, judge, lower, trim_dots, check,
}
use ostp.Filter.Glob.Matching.{matches}
use ostp.Filter.Glob.Matching.Lemmas.{IsPlain}
use ostp.Filter.Glob.Matching.Ends.{glob-matches}

-- Some end of a name, from a label on.
unfoldable pub any_of : (List ℕ → Bool) → List (List ℕ) → Bool
any_of f [] = false
any_of f (s ∷ rest) = f s || any_of f rest

abbrev pub wild_covers : List ℕ → List ℕ × Bool × ℕ → Bool
wild_covers name (pattern, exact, o) =
    if exact then matches pattern name else any_of (matches pattern) (label_starts name)

unfoldable pub any_wild : List ℕ → List (List ℕ × Bool × ℕ) → Bool
any_wild name [] = false
any_wild name (rule ∷ rest) = wild_covers name rule || any_wild name rest

-- Whether a rule of a kind covers a name.
unfoldable pub covers : Filter → Kind → List ℕ → Bool
unfolding any_of any_wild
covers f kind name =
    contains name (f.exact kind)
    || (any_of (λ s. contains s (f.suffix kind)) (label_starts name) || any_wild name (f.wild kind))

after_dots-IsPlain : (s : List ℕ) → IsPlain s → All IsPlain (after_dots s)
unfolding after_dots
after_dots-IsPlain [] h = tt
after_dots-IsPlain (c ∷ s) h = elim (Bool-cases (c == 46)) [
  | inl q ↦ rw q (h.1, after_dots-IsPlain s h.1)
  | inr q ↦ rw q (after_dots-IsPlain s h.1)
]

glob_any-matches :
    (p : List ℕ) (ss : List (List ℕ)) → All IsPlain ss → glob_any p ss ≡ any_of (matches p) ss
unfolding glob_any any_of
glob_any-matches p [] h = refl
glob_any-matches p (s ∷ ss) h = rw (glob-matches p s h.0, glob_any-matches p ss h.1) refl

wild_hit-covers :
    (name : List ℕ) (rule : List ℕ × Bool × ℕ)
    → IsPlain name
    → wild_hit name rule ≡ wild_covers name rule
unfolding wild_hit
wild_hit-covers name (p, true, o) plain = rw (glob-matches p name plain) refl
wild_hit-covers name (p, false, o) plain =
    glob_any-matches p (label_starts name) (plain, after_dots-IsPlain name plain)

find_wild-covers :
    (name : List ℕ) (rules : List (List ℕ × Bool × ℕ))
    → IsPlain name
    → is_some (find_wild name rules) ≡ any_wild name rules
unfolding find_wild any_wild
find_wild-covers name [] plain = refl
find_wild-covers name (rule ∷ rules) plain =
    rw (sym (wild_hit-covers name rule plain)) (elim (Bool-cases (wild_hit name rule)) [
      | inl q ↦ rw q refl
      | inr q ↦ rw q (find_wild-covers name rules plain)
    ])

is_some-with_rule :
    (rule : List ℕ) (o : Option ℕ) (otherwise : Option (List ℕ × ℕ))
    → is_some (with_rule rule o otherwise) ≡ is_some o || is_some otherwise
is_some-with_rule rule none otherwise = refl
is_some-with_rule rule (some x) otherwise = refl

find_suffix-covers :
    (d : Dict (List ℕ) ℕ) (ss : List (List ℕ)) (otherwise : Option (List ℕ × ℕ))
    → is_some (find_suffix d ss otherwise) ≡ any_of (λ s. contains s d) ss || is_some otherwise
unfolding find_suffix any_of
find_suffix-covers d [] otherwise = refl
find_suffix-covers d (s ∷ ss) otherwise =
    is_some-with_rule (suffix_rule s) (lookup s d) (find_suffix d ss otherwise)
    ∙ (rw (find_suffix-covers d ss otherwise)
        (sym (or_assoc (contains s d) (any_of (λ s. contains s d) ss) (is_some otherwise))))

find-covers :
    (f : Filter) (kind : Kind) (name : List ℕ)
    → IsPlain name
    → is_some (find f kind name) ≡ covers f kind name
unfolding find covers
find-covers f kind name plain =
    is_some-with_rule (exact_rule name) (lookup name (f.exact kind)) _
    ∙ rw
        (
          find_suffix-covers (f.suffix kind) (label_starts name) (find_wild name (f.wild kind)),
          find_wild-covers name (f.wild kind) plain,
        )
        refl

-- Blocked, allowed, or neither.
abbrev pub says : Verdict → Option Bool
says (Verdict.blocked m) = some true
says (Verdict.allowed m) = some false
says Verdict.no_verdict = none

judge-says :
    (f : Filter) (i a b : Option (List ℕ × ℕ))
    → says (judge f i a b) ≡ (
        if is_some i
        then some true
        else if is_some a
        then some false
        else if is_some b
        then some true
        else none)
judge-says f (some m) a b = refl
judge-says f none (some m) b = refl
judge-says f none none (some m) = refl
judge-says f none none none = refl

-- A name, in small letters and without dots at its end, is blocked if an important rule covers it, else
-- allowed if an exception covers it, else blocked if a block rule covers it; a name without asterisks.
pub check_decides :
    (f : Filter) (name : List ℕ)
    → IsPlain (map lower (trim_dots name))
    → let n = map lower (trim_dots name) in
      says (check f name) ≡ (
        if covers f Kind.important n
        then some true
        else if covers f Kind.allow n
        then some false
        else if covers f Kind.block n
        then some true
        else none)
unfolding check
check_decides f name plain =
    let n = map lower (trim_dots name) in
    judge-says f (find f Kind.important n) (find f Kind.allow n) (find f Kind.block n)
    ∙ rw
        (
          find-covers f Kind.important n plain,
          find-covers f Kind.allow n plain,
          find-covers f Kind.block n plain,
        )
        refl
