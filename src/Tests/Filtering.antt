-- ===== src/Tests/Filtering.antt =====
-- Rules of the DNS filter on concrete names.
use ostp.Prelude.{
  ℕ, ◌≡◌, refl, Bool, true, false, ◌&&◌, ◌||◌, none, some, List, [], ◌∷◌, if◌then◌else◌,
}
use ostp.Filter.{Kind, Filter, new_filter, add, check, same_kind, trim_dots}
use ostp.Filter.Glob.{glob}
use ostp.Filter.Glob.Matching.{matches}
use ostp.Filter.Glob.Matching.Ends.{glob-matches, glob_ends}
use ostp.Filter.Verdicts.{covers, says, check_decides}
use ostp.Filter.Adding.{rule_covers, add_covers}

-- "a*b" and "axab"
abbrev pattern_text : List ℕ
pattern_text = 97 ∷ 42 ∷ 98 ∷ []

abbrev text : List ℕ
text = 97 ∷ 120 ∷ 97 ∷ 98 ∷ []

glob-matches_example : glob pattern_text text ≡ some (matches pattern_text text)
glob-matches_example = glob-matches pattern_text text (refl, (refl, (refl, (refl, tt))))

glob_ends_example : (b : Bool) × (glob pattern_text text ≡ some b)
glob_ends_example = glob_ends pattern_text text

-- "a.b" with all below it is blocked, "c.a.b" is an exception.
abbrev parent : List ℕ
parent = 97 ∷ 46 ∷ 98 ∷ []

abbrev child : List ℕ
child = 99 ∷ 46 ∷ 97 ∷ 46 ∷ 98 ∷ []

abbrev rules : Filter
rules = add Kind.allow child true false 0 (add Kind.block parent false false 0 new_filter)

check_decides_example : says (check rules child) ≡ (
    if covers rules Kind.important child
    then some true
    else if covers rules Kind.allow child
    then some false
    else if covers rules Kind.block child
    then some true
    else none)
unfolding trim_dots
check_decides_example = check_decides rules child (refl, (refl, (refl, (refl, (refl, tt)))))

add_covers_example :
    covers (add Kind.allow child true false 0 rules) Kind.allow child
    ≡ covers rules Kind.allow child
      || (same_kind Kind.allow Kind.allow && rule_covers child true false child)
add_covers_example = add_covers Kind.allow child true false 0 rules Kind.allow child

-- A pattern of an asterisk does not match a text that begins with one.
asterisk_missed : glob (42 ∷ []) (42 ∷ 97 ∷ []) ≡ some false
unfolding glob
asterisk_missed = refl
