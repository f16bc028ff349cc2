-- ===== src/Sniff/Reads.antt =====
-- What the accesses of ostp-client/src/tunnel/sni_sniff.rs to its bytes give, from what stands at the place.
use ostp.Prelude.{
  ℕ, zero, suc, ◌+◌, ◌-◌, ◌*◌, ◌/◌, ◌%◌, ◌≤◌, ◌<◌, ◌≡◌, refl, sym, ap, ◌∙◌, List, [], ◌∷◌, ◌++◌,
  length, drop, get_or, arith, length-append, length-drop, take-append, drop-append, drop-drop,
  lt→ltb, le→leb,
}
use ostp.Outcome.{ok}
use ostp.Sniff.{byte_at, word_at, slice}

-- The two bytes of a word, in front of what follows.
abbrev pub put_word : ℕ → List ℕ → List ℕ
put_word n rest = n / 256 ∷ n % 256 ∷ rest

pub byte_lem :
    (input : List ℕ) (pos b : ℕ) (rest : List ℕ)
    → drop pos input ≡ b ∷ rest
    → (pos < length input) × (get_or input pos 0 ≡ b)
byte_lem [] zero b rest h = absurd (omega (arith, ap length h))
byte_lem [] (suc pos) b rest h = absurd (omega (arith, ap length h))
byte_lem (x ∷ input) zero b rest h = (omega arith, ap (λ l. get_or l 0 0) h)
byte_lem (x ∷ input) (suc pos) b rest h =
    let r = byte_lem input pos b rest h in (omega (arith, r.0), r.1)

pub at_byte :
    (input : List ℕ) (pos b : ℕ) (rest : List ℕ)
    → drop pos input ≡ b ∷ rest
    → byte_at input pos ≡ ok b
unfolding byte_at
at_byte input pos b rest h =
    let r = byte_lem input pos b rest h in rw (lt→ltb pos (length input) r.0, r.1) refl

-- On from a prefix.
pub advance :
    (input : List ℕ) (pos n : ℕ) (piece rest : List ℕ)
    → length piece ≡ n
    → drop pos input ≡ piece ++ rest
    → drop (pos + n) input ≡ rest
advance input pos n piece rest size h =
    sym (drop-drop n pos input) ∙ ap (drop n) h ∙ drop-append n piece rest size

pub at_word :
    (input : List ℕ) (pos n : ℕ) (rest : List ℕ)
    → drop pos input ≡ put_word n rest
    → word_at input pos ≡ ok n
unfolding word_at
at_word input pos n rest h =
    let whole : n / 256 * 256 + n % 256 ≡ n = omega arith in
    rw
      (
        at_byte input pos (n / 256) (n % 256 ∷ rest) h,
        at_byte input (pos + 1) (n % 256) rest
            (advance input pos 1 (n / 256 ∷ []) (n % 256 ∷ rest) refl h),
        whole,
      )
      refl

pub at_slice :
    (input : List ℕ) (start : ℕ) (piece rest : List ℕ)
    → 0 < length piece
    → drop start input ≡ piece ++ rest
    → slice input start (start + length piece) ≡ ok piece
unfolding slice
at_slice input start piece rest some_bytes h =
    let width : start + length piece - start ≡ length piece = omega arith in
    let room : start + length piece ≤ length input =
      omega (arith, ap length h, length-append piece rest, length-drop start input, some_bytes) in
    rw
      (
        le→leb start (start + length piece) (omega arith),
        le→leb (start + length piece) (length input) room,
        width,
        h,
      )
      (ap ok (take-append (length piece) piece rest refl))

get_or-append : (xs ys : List ℕ) (i d : ℕ) → i < length xs → get_or (xs ++ ys) i d ≡ get_or xs i d
get_or-append [] ys i d h = absurd (omega arith)
get_or-append (x ∷ xs) ys zero d h = refl
get_or-append (x ∷ xs) ys (suc i) d h = get_or-append xs ys i d (omega arith)

pub byte_of_head :
    (head rest : List ℕ) (i b : ℕ)
    → i < length head
    → get_or head i 0 ≡ b
    → byte_at (head ++ rest) i ≡ ok b
unfolding byte_at
byte_of_head head rest i b h k =
    rw
      (
        lt→ltb i (length (head ++ rest)) (omega (arith, length-append head rest)),
        get_or-append head rest i 0 h,
        k,
      )
      refl
