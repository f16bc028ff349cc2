-- ===== src/Reassembly/Pieces.antt =====
-- The walk over a group's fragments in ostp-client/src/tunnel/ip_reasm.rs, and the copying of their bytes.
use ostp.Prelude.{
  ℕ, ◌+◌, ◌-◌, ◌≤◌, ◌<◌, ◌≡◌, refl, ◌∙◌, subst, some, List, [], ◌∷◌, length, take, get_or, ltb,
  ◌==◌, if◌then◌else◌, min, max, arith, Bool-cases, inl, inr, ◌⊎◌, All, take_all, length-take,
  length-drop, drop, true,
}
use ostp.Outcome.{ok}
use ostp.Slices.{slice-inside, slice-front}
use ostp.Reassembly.Bytes.{length-overwrite, get_or-before, get_or-inside, get_or-after}
use ostp.Reassembly.{overwrite, copy_part, walk, copy_parts}

-- A fragment is the piece of a datagram at its offset.
abbrev pub IsPiece : List ℕ → ℕ × List ℕ → Type 0
IsPiece datagram (off, part) =
    (off + length part ≤ length datagram)
    × ((i : ℕ) → i < length part → get_or part i 0 ≡ get_or datagram (off + i) 0)

abbrev pub IsSortedParts : List (ℕ × List ℕ) → Type 0
IsSortedParts [] = Unit
IsSortedParts ((off, part) ∷ rest) = All (λ x. off < x.0) rest × IsSortedParts rest

-- Some fragment has the byte.
abbrev pub HasByte : ℕ → List (ℕ × List ℕ) → Type 0
HasByte i [] = ⊥
HasByte i ((off, part) ∷ rest) = ((off ≤ i) × (i < off + length part)) ⊎ HasByte i rest

later_byte :
    (i off : ℕ) (rest : List (ℕ × List ℕ))
    → i ≤ off
    → All (λ x. off < x.0) rest
    → HasByte i rest
    → ⊥
later_byte i off [] le above h = absurd h
later_byte i off ((o, p) ∷ rest) le above (inl h) = omega (arith, above.0, h.0)
later_byte i off ((o, p) ∷ rest) le above (inr h) = later_byte i off rest le above.1 h

-- Without a hole the walk reaches the end.
pub walk_reaches :
    (datagram : List ℕ) (e : ℕ) (parts : List (ℕ × List ℕ))
    → IsSortedParts parts
    → All (IsPiece datagram) parts
    → ((i : ℕ) → e ≤ i → i < length datagram → HasByte i parts)
    → (end : ℕ) × (walk e parts ≡ some end) × (length datagram ≤ end)
unfolding walk
walk_reaches datagram e [] sorted pieces all = elim (Bool-cases (ltb e (length datagram))) [
  | inl q ↦ absurd (all e (omega arith) (ground (arith, q)))
  | inr q ↦ (e, refl, ground (arith, q))
]
walk_reaches datagram e ((off, part) ∷ rest) sorted pieces all = elim (Bool-cases (ltb e off)) [
  | inl q ↦ absurd (hole (all e (omega arith) (ground (arith, q, pieces.0.0))) (ground (arith, q)))
  | inr q ↦
      let more =
        walk_reaches datagram (max e (off + length part)) rest sorted.1 pieces.1
          (λ i le lt. other i (all i (omega (arith, le)) lt) (omega (arith, le))) in
      (more.0, rw q more.1, more.2)
]
  where
    hole : HasByte e ((off, part) ∷ rest) → e < off → ⊥
    hole (inl h) lt = omega (arith, h.0, lt)
    hole (inr h) lt = later_byte e off rest (omega (arith, lt)) sorted.0 h

    other : (i : ℕ) → HasByte i ((off, part) ∷ rest) → off + length part ≤ i → HasByte i rest
    other i (inl h) le = absurd (omega (arith, h.1, le))
    other i (inr h) le = h

-- One fragment that is copied.
abbrev copied : ℕ → ℕ → List ℕ → List ℕ → List ℕ
copied total off part payload =
    if ltb off total
    then overwrite off (take (min (off + length part) total - off) part) payload
    else payload

module _ (datagram : List ℕ) (off : ℕ) (part payload : List ℕ)
    (piece : IsPiece datagram (off, part)) (len : length payload ≡ length datagram) where
  within : off + length part ≤ length payload
  within = omega (arith, piece.0, len)

  overwrite_inside :
      (i : ℕ)
      → (off ≤ i) × (i < off + length part)
      → get_or (overwrite off part payload) i 0 ≡ get_or datagram i 0
  overwrite_inside i h =
      let index : off + (i - off) ≡ i = omega (arith, h.0) in
      subst (λ j. get_or (overwrite off part payload) j 0 ≡ get_or datagram j 0) index
        (get_or-inside off part payload within (i - off) (omega (arith, h.0, h.1))
          ∙ piece.1 (i - off) (omega (arith, h.0, h.1)))

  -- The byte at an index, if the fragment has it or it is right already.
  overwrite_puts :
      (i : ℕ)
      → ((off ≤ i) × (i < off + length part)) ⊎ (get_or payload i 0 ≡ get_or datagram i 0)
      → get_or (overwrite off part payload) i 0 ≡ get_or datagram i 0
  overwrite_puts i (inl h) = overwrite_inside i h
  overwrite_puts i (inr e) = elim (Bool-cases (ltb i off)) [
    | inl q ↦ get_or-before off part payload within i (ground (arith, q)) ∙ e
    | inr q ↦ elim (Bool-cases (ltb i (off + length part))) [
      | inl r ↦ overwrite_inside i (ground (arith, q), ground (arith, r))
      | inr r ↦ get_or-after off part payload within i (ground (arith, r)) ∙ e
    ]
  ]

  copied_puts :
      (length (copied (length datagram) off part payload) ≡ length datagram)
      × ((i : ℕ)
          → i < length datagram
          → ((off ≤ i) × (i < off + length part)) ⊎ (get_or payload i 0 ≡ get_or datagram i 0)
          → get_or (copied (length datagram) off part payload) i 0 ≡ get_or datagram i 0)
  copied_puts = elim (Bool-cases (ltb off (length datagram))) [
    | inl q ↦
        let whole : take (min (off + length part) (length datagram) - off) part ≡ part =
          take_all _ part (omega (arith, piece.0)) in
        rw (q, whole) (length-overwrite off part payload within ∙ len, λ i lt h. overwrite_puts i h)
    | inr q ↦ rw q (len, λ i lt h. stay i lt (ground (arith, q)) h)
  ]
    where
      stay :
          (i : ℕ)
          → i < length datagram
          → length datagram ≤ off
          → ((off ≤ i) × (i < off + length part)) ⊎ (get_or payload i 0 ≡ get_or datagram i 0)
          → get_or payload i 0 ≡ get_or datagram i 0
      stay i lt past (inl h) = absurd (omega (arith, lt, past, h.0))
      stay i lt past (inr e) = e

-- In a payload of the total length the copy stays inside.
pub copy_part-inside :
    (total off : ℕ) (part payload : List ℕ)
    → length payload ≡ total
    → off < total
    → copy_part off (min (off + length part) total) part payload
      ≡ ok (overwrite off (take (min (off + length part) total - off) part) payload)
unfolding copy_part
copy_part-inside total off part payload len inside =
    let end : ℕ = min (off + length part) total in
    let place = slice-inside payload off end (omega arith) (omega (arith, len)) in
    let bytes = slice-front part (end - off) (omega arith) in
    let n = length-take (end - off) (drop off payload) in
    let n' = length-take (end - off) part in
    let long = length-drop off payload in
    let same : (length (take (end - off) (drop off payload)) == length (take (end - off) part))
        ≡ true =
      ground (arith, n, n', long, len) in
    rw (place, bytes, same) refl

pub copy_one :
    (total off : ℕ) (part payload : List ℕ) (rest : List (ℕ × List ℕ))
    → length payload ≡ total
    → copy_parts total ((off, part) ∷ rest) payload
      ≡ copy_parts total rest (copied total off part payload)
unfolding copy_parts
copy_one total off part payload rest len = elim (Bool-cases (ltb off total)) [
  | inl q ↦ rw (q, copy_part-inside total off part payload len (ground (arith, q))) refl
  | inr q ↦ rw q refl
]

length-copied :
    (total off : ℕ) (part payload : List ℕ)
    → length payload ≡ total
    → length (copied total off part payload) ≡ total
length-copied total off part payload len = elim (Bool-cases (ltb off total)) [
  | inl q ↦
      let inside : off < total = ground (arith, q) in
      let n = length-take (min (off + length part) total - off) part in
      rw q (
        omega (
          arith,
          len,
          length-overwrite off (take (min (off + length part) total - off) part) payload
              (omega (arith, n, len, inside)),
        ))
  | inr q ↦ rw q len
]

-- Whatever the fragments are, copying them does not panic.
pub copy_parts-returns :
    (total : ℕ) (parts : List (ℕ × List ℕ)) (payload : List ℕ)
    → length payload ≡ total
    → (out : List ℕ) × (copy_parts total parts payload ≡ ok out)
unfolding copy_parts
copy_parts-returns total [] payload len = (payload, refl)
copy_parts-returns total ((off, part) ∷ rest) payload len =
    let (out, done) =
      copy_parts-returns total rest (copied total off part payload)
        (length-copied total off part payload len) in
    (out, copy_one total off part payload rest len ∙ done)

-- Copying the fragments does not panic, and puts every byte that some fragment has, or that is there
-- already.
pub copy_parts_puts :
    (datagram : List ℕ) (parts : List (ℕ × List ℕ)) (payload : List ℕ)
    → All (IsPiece datagram) parts
    → length payload ≡ length datagram
    → (out : List ℕ) × (copy_parts (length datagram) parts payload ≡ ok out)
      × (length out ≡ length datagram)
      × ((i : ℕ)
          → i < length datagram
          → HasByte i parts ⊎ (get_or payload i 0 ≡ get_or datagram i 0)
          → get_or out i 0 ≡ get_or datagram i 0)
unfolding copy_parts
copy_parts_puts datagram [] payload pieces len = (payload, refl, len, here)
  where
    here :
        (i : ℕ)
        → i < length datagram
        → ⊥ ⊎ (get_or payload i 0 ≡ get_or datagram i 0)
        → get_or payload i 0 ≡ get_or datagram i 0
    here i lt (inl h) = absurd h
    here i lt (inr h) = h
copy_parts_puts datagram ((off, part) ∷ rest) payload pieces len =
    let one = copied_puts datagram off part payload pieces.0 len in
    let (out, done, size, more) =
      copy_parts_puts datagram rest (copied (length datagram) off part payload) pieces.1 one.0 in
    (
      out,
      copy_one (length datagram) off part payload rest len ∙ done,
      size,
      λ i lt h. more i lt (shift i (one.1 i lt) h),
    )
  where
    shift :
        (i : ℕ)
        → ((((off ≤ i) × (i < off + length part)) ⊎ (get_or payload i 0 ≡ get_or datagram i 0))
            → get_or (copied (length datagram) off part payload) i 0 ≡ get_or datagram i 0)
        → (((off ≤ i) × (i < off + length part)) ⊎ HasByte i rest)
          ⊎ (get_or payload i 0 ≡ get_or datagram i 0)
        → HasByte i rest
          ⊎ (get_or (copied (length datagram) off part payload) i 0 ≡ get_or datagram i 0)
    shift i put (inl (inl h)) = inr (put (inl h))
    shift i put (inl (inr h)) = inl h
    shift i put (inr e) = inr (put (inr e))
