-- ===== src/Filter/Glob.antt =====
-- `glob` of ostp-dns/src/filter.rs: names that match a pattern. Strings are bytes. The source has indices
-- into the pattern and the text; here they are what is left of each.
pub mod Matching
use ostp.Prelude.{
  ℕ, zero, suc, ◌+◌, ◌*◌, Bool, true, false, ◌&&◌, Option, none, some, List, [], ◌∷◌, length, drop,
  ◌==◌, if◌then◌else◌,
}

-- `b'*'`
abbrev pub asterisk : ℕ
asterisk = 42

-- The last loop: only asterisks are left of the pattern.
unfoldable pub only_stars : List ℕ → Bool
only_stars [] = true
only_stars (x ∷ p) = x == asterisk && only_stars p

-- A step of the first loop: an answer, or the pattern, the text, and the pattern after the last
-- asterisk with the text where its run ends.
pub data Step : Type 0 where
  done : Bool → Step
  next : List ℕ → List ℕ → Option (List ℕ × List ℕ) → Step

abbrev pub back : Option (List ℕ × List ℕ) → Step
back none = Step.done false
back (some (after, mark)) = let mark' = drop 1 mark in Step.next after mark' (some (after, mark'))

unfoldable pub glob_step : List ℕ → List ℕ → Option (List ℕ × List ℕ) → Step
unfolding only_stars
glob_step p [] star = Step.done (only_stars p)
glob_step [] (c ∷ t) star = back star
glob_step (x ∷ p) (c ∷ t) star =
    if x == c
    then Step.next p t star
    else if x == asterisk
    then Step.next p (c ∷ t) (some (p, c ∷ t))
    else back star

-- Nothing when the fuel runs out.
unfoldable pub glob_loop : ℕ → Step → Option Bool
unfolding glob_step
glob_loop zero (Step.done b) = some b
glob_loop (suc fuel) (Step.done b) = some b
glob_loop zero (Step.next p t star) = none
glob_loop (suc fuel) (Step.next p t star) = glob_loop fuel (glob_step p t star)

unfoldable pub glob : List ℕ → List ℕ → Option Bool
unfolding glob_loop
glob pattern text =
    glob_loop ((length text + 1) * (length pattern + 1)) (Step.next pattern text none)
