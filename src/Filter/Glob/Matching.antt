-- ===== src/Filter/Glob/Matching.antt =====
-- What a pattern of ostp-dns/src/filter.rs matches, by its structure.
pub mod Lemmas
pub mod Correct
pub mod Ends
use ostp.Prelude.{ℕ, Bool, true, false, ◌&&◌, ◌||◌, List, [], ◌∷◌, ◌==◌, if◌then◌else◌}
use ostp.Filter.Glob.{asterisk}

abbrev pub is_empty : List ℕ → Bool
is_empty [] = true
is_empty (c ∷ t) = false

-- Some end of the text.
unfoldable pub some_end : (List ℕ → Bool) → List ℕ → Bool
some_end f [] = f []
some_end f (c ∷ t) = f (c ∷ t) || some_end f t

abbrev pub after_byte : ℕ → (List ℕ → Bool) → List ℕ → Bool
after_byte x f [] = false
after_byte x f (c ∷ t) = (x == c) && f t

-- An asterisk matches any run of bytes, another byte itself.
unfoldable pub matches : List ℕ → List ℕ → Bool
unfolding some_end
matches [] t = is_empty t
matches (x ∷ p) t = if x == asterisk then some_end (matches p) t else after_byte x (matches p) t
