-- ===== src/Reassembly/Bytes.antt =====
-- Bytes that are written over others, as in ostp-client/src/tunnel/ip_reasm.rs.
use ostp.Prelude.{
  ℕ, zero, suc, ◌+◌, ◌-◌, ◌≤◌, ◌<◌, ◌≡◌, refl, sym, ap, ◌∙◌, List, [], ◌∷◌, ◌++◌, length, take,
  drop, get_or, arith, length-append, length-take, length-drop, get_or-take,
}
use ostp.Reassembly.{overwrite, zeros}

pub get_or-append_left :
    (xs ys : List ℕ) (i : ℕ) → i < length xs → get_or (xs ++ ys) i 0 ≡ get_or xs i 0
get_or-append_left [] ys i h = absurd (omega (arith, h))
get_or-append_left (x ∷ xs) ys zero h = refl
get_or-append_left (x ∷ xs) ys (suc i) h = get_or-append_left xs ys i (omega (arith, h))

pub get_or-append_right :
    (xs ys : List ℕ) (j i : ℕ) → j ≡ length xs + i → get_or (xs ++ ys) j 0 ≡ get_or ys i 0
get_or-append_right [] ys j i e =
    let same : j ≡ i = omega (arith, e) in ap (λ j. get_or ys j 0) same
get_or-append_right (x ∷ xs) ys zero i e = absurd (omega (arith, e))
get_or-append_right (x ∷ xs) ys (suc j) i e = get_or-append_right xs ys j i (omega (arith, e))

pub get_or-drop :
    (n : ℕ) (xs : List ℕ) (j i : ℕ) → j ≡ n + i → get_or (drop n xs) i 0 ≡ get_or xs j 0
get_or-drop zero xs j i e = let same : i ≡ j = omega (arith, e) in ap (λ i. get_or xs i 0) same
get_or-drop (suc n) [] j i e = refl
get_or-drop (suc n) (x ∷ xs) zero i e = absurd (omega (arith, e))
get_or-drop (suc n) (x ∷ xs) (suc j) i e = get_or-drop n xs j i (omega (arith, e))

pub same_bytes :
    (xs ys : List ℕ)
    → length xs ≡ length ys
    → ((i : ℕ) → i < length ys → get_or xs i 0 ≡ get_or ys i 0)
    → xs ≡ ys
same_bytes [] [] e h = refl
same_bytes [] (y ∷ ys) e h = absurd (omega (arith, e))
same_bytes (x ∷ xs) [] e h = absurd (omega (arith, e))
same_bytes (x ∷ xs) (y ∷ ys) e h =
    let first : x ≡ y = h 0 (omega arith) in
    let rest = same_bytes xs ys (omega (arith, e)) (λ i lt. h (suc i) (omega (arith, lt))) in
    rw (first, rest) refl

pub length-zeros : (n : ℕ) → length (zeros n) ≡ n
unfolding zeros
length-zeros zero = refl
length-zeros (suc n) = omega (arith, length-zeros n)

module _ (at : ℕ) (bytes out : List ℕ) (fits : at + length bytes ≤ length out) where
  pub length-overwrite : length (overwrite at bytes out) ≡ length out
  length-overwrite = omega (
    arith,
    fits,
    length-append (take at out) (bytes ++ drop (at + length bytes) out),
    length-append bytes (drop (at + length bytes) out),
    length-take at out,
    length-drop (at + length bytes) out,
  )

  head_length : length (take at out) ≡ at
  head_length = omega (arith, fits, length-take at out)

  pub get_or-before : (i : ℕ) → i < at → get_or (overwrite at bytes out) i 0 ≡ get_or out i 0
  get_or-before i h =
      get_or-append_left (take at out) (bytes ++ drop (at + length bytes) out) i
        (omega (arith, h, head_length))
      ∙ get_or-take i at 0 out h

  pub get_or-inside :
      (i : ℕ) → i < length bytes → get_or (overwrite at bytes out) (at + i) 0 ≡ get_or bytes i 0
  get_or-inside i h =
      get_or-append_right (take at out) (bytes ++ drop (at + length bytes) out) (at + i) i
        (omega (arith, head_length))
      ∙ get_or-append_left bytes (drop (at + length bytes) out) i h

  pub get_or-after :
      (i : ℕ) → at + length bytes ≤ i → get_or (overwrite at bytes out) i 0 ≡ get_or out i 0
  get_or-after i h =
      get_or-append_right (take at out) (bytes ++ drop (at + length bytes) out) i (i - at)
        (omega (arith, h, head_length))
      ∙ (get_or-append_right bytes (drop (at + length bytes) out) (i - at) (i - (at + length bytes))
            (omega (arith, h))
          ∙ get_or-drop (at + length bytes) out i (i - (at + length bytes)) (omega (arith, h)))

  -- What comes after the bytes stays.
  pub drop-overwrite :
      (n : ℕ)
      → at + length bytes ≤ n
      → n ≤ length out
      → drop n (overwrite at bytes out) ≡ drop n out
  drop-overwrite n h room =
      same_bytes (drop n (overwrite at bytes out)) (drop n out)
        (omega (arith, length-drop n (overwrite at bytes out), length-drop n out, length-overwrite))
        (λ i lt.
          get_or-drop n (overwrite at bytes out) (n + i) i refl
          ∙ (get_or-after (n + i) (omega (arith, h)) ∙ sym (get_or-drop n out (n + i) i refl)))
