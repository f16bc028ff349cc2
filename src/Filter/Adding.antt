-- ===== src/Filter/Adding.antt =====
-- What a rule that is added to the filter of ostp-dns/src/filter.rs covers.
use mathlib.Core.Bool.{or_assoc, or_comm}
use ostp.Prelude.{
  ℕ, ◌≡◌, refl, sym, ap, subst, ◌∙◌, Bool, true, false, ◌&&◌, ◌||◌, List, [], ◌∷◌, ◌++◌, Bool-cases,
  inl, inr,
}
use ostp.Dict.{Dict, insert, contains, is_some, bytes_eq, nat_key, bytes_key}
use ostp.Dict.Laws.{lookup-insert}
use ostp.Filter.{Kind, same_kind, Filter, put, add, label_starts}
use ostp.Filter.Verdicts.{any_of, wild_covers, any_wild, covers}

-- The names that a rule means: a pattern, one name, or a name and all below it.
abbrev pub rule_covers : List ℕ → Bool → Bool → List ℕ → Bool
rule_covers key exact true name = wild_covers name (key, exact, 0)
rule_covers key true false name = bytes_eq key name
rule_covers key false false name = any_of (bytes_eq key) (label_starts name)

contains-insert :
    (key s : List ℕ) (source : ℕ) (d : Dict (List ℕ) ℕ)
    → contains s (insert key source d) ≡ contains s d || bytes_eq key s
contains-insert key s source d =
    ap is_some (lookup-insert s key source d) ∙ elim (Bool-cases (bytes_eq key s)) [
      | inl q ↦ rw q (sym (or_true (contains s d)))
      | inr q ↦ rw q (sym (or_none (contains s d)))
    ]
  where
    or_true : (b : Bool) → b || true ≡ true
    or_true true = refl
    or_true false = refl

    or_none : (b : Bool) → b || false ≡ b
    or_none true = refl
    or_none false = refl

or_swap : (a b c d : Bool) → (a || b) || (c || d) ≡ (a || c) || (b || d)
or_swap true b c d = refl
or_swap false true true d = refl
or_swap false true false d = refl
or_swap false false c d = refl

any_of-insert :
    (key : List ℕ) (source : ℕ) (d : Dict (List ℕ) ℕ) (ss : List (List ℕ))
    → any_of (λ s. contains s (insert key source d)) ss
      ≡ any_of (λ s. contains s d) ss || any_of (bytes_eq key) ss
unfolding any_of
any_of-insert key source d [] = refl
any_of-insert key source d (s ∷ ss) =
    rw (contains-insert key s source d, any_of-insert key source d ss)
      (or_swap (contains s d) (bytes_eq key s) (any_of (λ s. contains s d) ss)
        (any_of (bytes_eq key) ss))

any_wild-append :
    (name : List ℕ) (rules : List (List ℕ × Bool × ℕ)) (rule : List ℕ × Bool × ℕ)
    → any_wild name (rules ++ (rule ∷ [])) ≡ any_wild name rules || wild_covers name rule
unfolding any_wild
any_wild-append name [] rule = or_comm (wild_covers name rule) false
any_wild-append name (r ∷ rules) rule =
    rw (any_wild-append name rules rule)
      (sym (or_assoc (wild_covers name r) (any_wild name rules) (wild_covers name rule)))

-- The new rule is of the kind, in one of the three places.
in_first : (a b c x : Bool) → (a || x) || (b || c) ≡ (a || (b || c)) || x
in_first true b c x = refl
in_first false b c x = or_comm x (b || c)

in_second : (a b c x : Bool) → a || ((b || x) || c) ≡ (a || (b || c)) || x
in_second true b c x = refl
in_second false b c x = in_first b false c x

in_third : (a b c x : Bool) → a || (b || (c || x)) ≡ (a || (b || c)) || x
in_third a b c x = ap (λ y. a || y) (sym (or_assoc b c x)) ∙ sym (or_assoc a (b || c) x)

other_kind : (b x : Bool) → b ≡ b || (false && x)
other_kind true x = refl
other_kind false x = refl

wild-source :
    (name key : List ℕ) (exact : Bool) (o : ℕ)
    → wild_covers name (key, exact, o) ≡ wild_covers name (key, exact, 0)
wild-source name key true o = refl
wild-source name key false o = refl

same_kind_self : (k : Kind) → same_kind k k ≡ true
same_kind_self Kind.block = refl
same_kind_self Kind.allow = refl
same_kind_self Kind.important = refl

same_kind-≡ : (k k' : Kind) → same_kind k k' ≡ true → k ≡ k'
same_kind-≡ Kind.block Kind.block h = refl
same_kind-≡ Kind.block Kind.allow h = absurd cc
same_kind-≡ Kind.block Kind.important h = absurd cc
same_kind-≡ Kind.allow Kind.block h = absurd cc
same_kind-≡ Kind.allow Kind.allow h = refl
same_kind-≡ Kind.allow Kind.important h = absurd cc
same_kind-≡ Kind.important Kind.block h = absurd cc
same_kind-≡ Kind.important Kind.allow h = absurd cc
same_kind-≡ Kind.important Kind.important h = refl

put-same : {T : Type 0} (k : Kind) (x : T) (f : Kind → T) → put k x f k ≡ x
put-same k x f = rw (same_kind_self k) refl

put-other :
    {T : Type 0} (k k' : Kind) (x : T) (f : Kind → T) → same_kind k k' ≡ false → put k x f k' ≡ f k'
put-other k k' x f q = rw q refl

-- The suffixes of a kind among its other rules.
abbrev suffixes_cover : Filter → Kind → List ℕ → Dict (List ℕ) ℕ → Bool
suffixes_cover f kind name d =
    contains name (f.exact kind)
    || (any_of (λ s. contains s d) (label_starts name) || any_wild name (f.wild kind))

added_here :
    (kind : Kind) (key : List ℕ) (exact wildcard : Bool) (source : ℕ) (f : Filter) (name : List ℕ)
    → covers (add kind key exact wildcard source f) kind name
      ≡ covers f kind name || rule_covers key exact wildcard name
unfolding covers add
added_here kind key exact true source f name =
    rw
      (
        same_kind_self kind,
        any_wild-append name (f.wild kind) (key, exact, source),
        wild-source name key exact source,
      )
      (in_third (contains name (f.exact kind)) _ (any_wild name (f.wild kind))
        (wild_covers name (key, exact, 0)))
added_here kind key true false source f name =
    rw (same_kind_self kind, contains-insert key name source (f.exact kind))
      (in_first (contains name (f.exact kind)) _ (any_wild name (f.wild kind)) (bytes_eq key name))
added_here kind key false false source f name =
    ap (suffixes_cover f kind name) (put-same kind (insert key source (f.suffix kind)) f.suffix)
    ∙ rw (any_of-insert key source (f.suffix kind) (label_starts name)) (
        in_second (contains name (f.exact kind)) _ (any_wild name (f.wild kind))
          (any_of (bytes_eq key) (label_starts name)))

added_elsewhere :
    (kind : Kind) (key : List ℕ) (exact wildcard : Bool) (source : ℕ) (f : Filter) (kind' : Kind)
    (name : List ℕ)
    → same_kind kind kind' ≡ false
    → covers (add kind key exact wildcard source f) kind' name ≡ covers f kind' name
unfolding covers add
added_elsewhere kind key exact true source f kind' name q = rw q refl
added_elsewhere kind key true false source f kind' name q = rw q refl
added_elsewhere kind key false false source f kind' name q =
    ap (suffixes_cover f kind' name)
      (put-other kind kind' (insert key source (f.suffix kind)) f.suffix q)

-- After a rule is added, a kind covers what it did before, and if it is the rule's kind what the rule
-- means; nothing else, whatever was added before.
pub add_covers :
    (kind : Kind) (key : List ℕ) (exact wildcard : Bool) (source : ℕ) (f : Filter) (kind' : Kind)
    (name : List ℕ)
    → covers (add kind key exact wildcard source f) kind' name
      ≡ covers f kind' name || (same_kind kind kind' && rule_covers key exact wildcard name)
add_covers kind key exact wildcard source f kind' name =
    let rule = rule_covers key exact wildcard name in
    elim (Bool-cases (same_kind kind kind')) [
      | inr q ↦ rw q (
          added_elsewhere kind key exact wildcard source f kind' name q
          ∙ other_kind (covers f kind' name) rule)
      | inl q ↦ rw q (
          subst
            (λ k. covers (add kind key exact wildcard source f) k name ≡ covers f k name || rule)
            (same_kind-≡ kind kind' q) (added_here kind key exact wildcard source f name))
    ]
