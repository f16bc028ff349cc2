-- ===== src/Filter.antt =====
-- ostp-dns/src/filter.rs: the block and allow rules of the DNS resolver. A string is its bytes, and names
-- are ASCII. The maps and lists of a filter, one for each kind of rule, are functions of the kind.
pub mod Glob
pub mod Verdicts
pub mod Adding
use ostp.Prelude.{
  ℕ, zero, suc, ◌+◌, Bool, true, false, ◌&&◌, ◌||◌, Option, none, some, List, [], ◌∷◌, ◌++◌, map,
  leb, ◌==◌, if◌then◌else◌,
}
use ostp.Dict.{Dict, lookup, insert, nat_key, bytes_key}
use ostp.Filter.Glob.{glob}

pub data Kind : Type 0 where
  block allow important : Kind

abbrev pub same_kind : Kind → Kind → Bool
same_kind Kind.block Kind.block = true
same_kind Kind.allow Kind.allow = true
same_kind Kind.important Kind.important = true
same_kind _ _ = false

pub record SourceStats : Type 0 where
  pub name : List ℕ
  pub rules : ℕ
  pub unsupported : ℕ

-- `Origin` is the number of the source.
pub record Filter : Type 0 where
  pub suffix : Kind → Dict (List ℕ) ℕ
  pub exact : Kind → Dict (List ℕ) ℕ
  pub wild : Kind → List (List ℕ × Bool × ℕ)
  -- the addresses of hosts lines, each by its bytes
  pub host_answers : Dict (List ℕ) (List (List ℕ))
  pub sources : List SourceStats

abbrev pub new_filter : Filter
new_filter = record {
  suffix = λ k. [];
  exact = λ k. [];
  wild = λ k. [];
  host_answers = [];
  sources = [];
}

abbrev pub put : {T : Type 0} → Kind → T → (Kind → T) → Kind → T
put kind x f = λ k. if same_kind kind k then x else f k

unfoldable pub add : Kind → List ℕ → Bool → Bool → ℕ → Filter → Filter
add kind key exact wildcard source f =
    if wildcard
    then record f { wild = put kind (f.wild kind ++ ((key, exact, source) ∷ [])) f.wild }
    else if exact
    then record f { exact = put kind (insert key source (f.exact kind)) f.exact }
    else record f { suffix = put kind (insert key source (f.suffix kind)) f.suffix }

-- The name, and what follows each of its dots.
unfoldable pub after_dots : List ℕ → List (List ℕ)
after_dots [] = []
after_dots (c ∷ s) = if c == 46 then s ∷ after_dots s else after_dots s

abbrev pub label_starts : List ℕ → List (List ℕ)
label_starts s = s ∷ after_dots s

-- `|name^` and `||name^`
abbrev pub exact_rule : List ℕ → List ℕ
exact_rule s = 124 ∷ (s ++ (94 ∷ []))

abbrev pub suffix_rule : List ℕ → List ℕ
suffix_rule s = 124 ∷ (124 ∷ (s ++ (94 ∷ [])))

abbrev pub with_rule : List ℕ → Option ℕ → Option (List ℕ × ℕ) → Option (List ℕ × ℕ)
with_rule rule (some o) otherwise = some (rule, o)
with_rule rule none otherwise = otherwise

unfoldable pub find_suffix :
    Dict (List ℕ) ℕ → List (List ℕ) → Option (List ℕ × ℕ) → Option (List ℕ × ℕ)
find_suffix d [] otherwise = otherwise
find_suffix d (s ∷ rest) otherwise =
    with_rule (suffix_rule s) (lookup s d) (find_suffix d rest otherwise)

-- `glob` always answers.
abbrev pub is_hit : Option Bool → Bool
is_hit none = false
is_hit (some b) = b

unfoldable pub glob_any : List ℕ → List (List ℕ) → Bool
unfolding glob
glob_any pattern [] = false
glob_any pattern (s ∷ rest) = is_hit (glob pattern s) || glob_any pattern rest

unfoldable pub wild_hit : List ℕ → List ℕ × Bool × ℕ → Bool
unfolding glob_any
wild_hit name (pattern, exact, o) =
    if exact then is_hit (glob pattern name) else glob_any pattern (label_starts name)

abbrev pub wild_rule : List ℕ × Bool × ℕ → List ℕ
wild_rule (pattern, exact, o) = if exact then exact_rule pattern else suffix_rule pattern

unfoldable pub find_wild : List ℕ → List (List ℕ × Bool × ℕ) → Option (List ℕ × ℕ)
unfolding wild_hit
find_wild name [] = none
find_wild name (rule ∷ rest) =
    if wild_hit name rule then some (wild_rule rule, rule.2) else find_wild name rest

-- The rule of a kind that a name falls under: the name itself, then the longest end of it that is
-- listed, then the first pattern.
unfoldable pub find : Filter → Kind → List ℕ → Option (List ℕ × ℕ)
unfolding find_suffix find_wild after_dots
find f kind name =
    with_rule (exact_rule name) (lookup name (f.exact kind))
      (find_suffix (f.suffix kind) (label_starts name) (find_wild name (f.wild kind)))

pub record Match : Type 0 where
  pub rule : List ℕ
  pub source : List ℕ

pub data Verdict : Type 0 where
  blocked allowed : Match → Verdict
  no_verdict : Verdict

abbrev pub name_of : ℕ → List SourceStats → List ℕ
name_of o [] = []
name_of zero (s ∷ rest) = s.name
name_of (suc o) (s ∷ rest) = name_of o rest

abbrev pub to_match : Filter → List ℕ × ℕ → List ℕ → Match
to_match f (rule, o) prefix = record { rule = prefix ++ rule; source = name_of o f.sources }

abbrev pub important_match : Filter → List ℕ × ℕ → Match
important_match f m =
    let found = to_match f m [] in
    -- "$important"
    record found {
      rule =
          found.rule
          ++ (36 ∷ (105 ∷ (109 ∷ (112 ∷ (111 ∷ (114 ∷ (116 ∷ (97 ∷ (110 ∷ (116 ∷ []))))))))));
    }

-- `to_ascii_lowercase`
abbrev pub lower : ℕ → ℕ
lower c = if leb 65 c && leb c 90 then c + 32 else c

-- `trim_end_matches('.')`
abbrev pub drop_dot : ℕ → List ℕ → List ℕ
drop_dot c [] = if c == 46 then [] else c ∷ []
drop_dot c (d ∷ s) = c ∷ (d ∷ s)

unfoldable pub trim_dots : List ℕ → List ℕ
trim_dots [] = []
trim_dots (c ∷ s) = drop_dot c (trim_dots s)

abbrev pub judge :
    Filter → Option (List ℕ × ℕ) → Option (List ℕ × ℕ) → Option (List ℕ × ℕ) → Verdict
judge f (some m) allowing blocking = Verdict.blocked (important_match f m)
judge f none (some m) blocking = Verdict.allowed (to_match f m (64 ∷ (64 ∷ [])))
judge f none none (some m) = Verdict.blocked (to_match f m [])
judge f none none none = Verdict.no_verdict

unfoldable pub check : Filter → List ℕ → Verdict
unfolding find trim_dots
check f name =
    let name' = map lower (trim_dots name) in
    judge f (find f Kind.important name') (find f Kind.allow name') (find f Kind.block name')
