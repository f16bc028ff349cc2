-- ===== src/Acks/RoundTrip.antt =====
-- The bytes of an acknowledgement (ostp-core/src/protocol.rs) are read back as the ranges sent.
use ostp.Prelude.{
  some, Bool-cases, inl, inr, ◌==◌, ℕ, zero, suc, ◌+◌, ◌-◌, ◌*◌, ◌%◌, ◌^◌, ◌≤◌, ◌<◌, ◌≡◌, refl, sym,
  ap, ◌∙◌, List, [], ◌∷◌, ◌++◌, length, take, drop, arith, All, to_be_bytes, from_be_bytes,
  length-to_be_bytes, from_be_bytes-to_be_bytes, length-append, take-append, drop-append,
  length-drop, u64_max, drop-drop,
}
use ostp.Outcome.{ok}
use ostp.Acks.{
  coalesce, all_ranges, trim_ranges, range_bytes, encode_ranges, build_ack_payload, parse_ranges,
  parse_ack_ranges,
}

-- Both ends are 64-bit words.
abbrev pub IsWords : ℕ × ℕ → Type 0
IsWords (start, end) = (start < 2 ^ 64) × (end < 2 ^ 64)

length-range_bytes : (rs : List (ℕ × ℕ)) → length (range_bytes rs) ≡ length rs * 16
unfolding range_bytes
length-range_bytes [] = refl
length-range_bytes ((s, t) ∷ rs) = omega (
  arith,
  length-append (to_be_bytes 8 s) (to_be_bytes 8 t ++ range_bytes rs),
  length-append (to_be_bytes 8 t) (range_bytes rs),
  length-to_be_bytes 8 s,
  length-to_be_bytes 8 t,
  length-range_bytes rs,
)

parse_ranges-range_bytes :
    (rs : List (ℕ × ℕ)) → All IsWords rs → parse_ranges (length rs) (range_bytes rs) ≡ rs
unfolding parse_ranges range_bytes
parse_ranges-range_bytes [] h = refl
parse_ranges-range_bytes ((s, t) ∷ rs) h =
    let bytes = to_be_bytes 8 s ++ (to_be_bytes 8 t ++ range_bytes rs) in
    let l = length-to_be_bytes 8 s in
    let m = length-to_be_bytes 8 t in
    let tail = drop-append 8 (to_be_bytes 8 s) (to_be_bytes 8 t ++ range_bytes rs) l in
    let start : from_be_bytes (take 8 bytes) ≡ s =
      ap from_be_bytes (take-append 8 (to_be_bytes 8 s) (to_be_bytes 8 t ++ range_bytes rs) l)
      ∙ from_be_bytes-to_be_bytes 8 s (omega (arith, h.0.0)) in
    let end : from_be_bytes (take 8 (drop 8 bytes)) ≡ t =
      ap (λ b. from_be_bytes (take 8 b)) tail
      ∙ ap from_be_bytes (take-append 8 (to_be_bytes 8 t) (range_bytes rs) m)
      ∙ from_be_bytes-to_be_bytes 8 t (omega (arith, h.0.1)) in
    let rest : drop 16 bytes ≡ range_bytes rs =
      sym (drop-drop 8 8 bytes)
      ∙ ap (drop 8) tail
      ∙ drop-append 8 (to_be_bytes 8 t) (range_bytes rs) m in
    rw (start, end, rest) (ap (λ r. (s, t) ∷ r) (parse_ranges-range_bytes rs h.1))

-- Up to 255 ranges of 64-bit words are read back as they were sent.
pub parse_ack_ranges-encode_ranges :
    (rs : List (ℕ × ℕ))
    → All IsWords rs
    → length rs ≤ 255
    → parse_ack_ranges (encode_ranges rs) ≡ ok rs
unfolding parse_ack_ranges encode_ranges
parse_ack_ranges-encode_ranges [] h few = refl
parse_ack_ranges-encode_ranges (r ∷ rs) h few =
    let one_byte : length (r ∷ rs) % 256 ≡ length (r ∷ rs) = omega arith in
    rw one_byte (ground (arith, length-range_bytes (r ∷ rs), parse_ranges-range_bytes (r ∷ rs) h))

coalesce-IsWords :
    (start last : ℕ) (keys : List ℕ)
    → start ≤ u64_max
    → last ≤ u64_max
    → All (λ k. k ≤ u64_max) keys
    → All IsWords (coalesce (some (start, last)) keys)
unfolding coalesce
coalesce-IsWords start last [] p q h = omega arith
coalesce-IsWords start last (k ∷ keys) p q h = elim (Bool-cases (k == last + 1)) [
  | inl next ↦ rw (next, coalesce) (coalesce-IsWords start k keys p h.0 h.1)
  | inr gap ↦ rw (gap, coalesce) ((omega arith, omega arith), coalesce-IsWords k k keys h.0 h.0 h.1)
]

all_ranges-IsWords :
    (expected : ℕ) (keys : List ℕ)
    → expected ≤ u64_max
    → All (λ k. k ≤ u64_max) keys
    → All IsWords (all_ranges expected keys)
unfolding all_ranges coalesce
all_ranges-IsWords expected [] e h = ground arith
all_ranges-IsWords expected (k ∷ keys) e h = ground (arith, coalesce-IsWords k k keys h.0 h.0 h.1)

All-drop : {A : Type 0} (P : A → Type 0) (j : ℕ) (xs : List A) → All P xs → All P (drop j xs)
All-drop P zero xs h = h
All-drop P (suc j) [] h = h
All-drop P (suc j) (x ∷ xs) h = All-drop P j xs h.1

trim-IsWords : (rs : List (ℕ × ℕ)) → All IsWords rs → All IsWords (trim_ranges rs)
unfolding trim_ranges
trim-IsWords [] h = h
trim-IsWords (r ∷ rs) h = ground (arith, All-drop IsWords (length (r ∷ rs) - 7) (r ∷ rs) h)

length-trim_ranges : (rs : List (ℕ × ℕ)) → length (trim_ranges rs) ≤ 8
unfolding trim_ranges
length-trim_ranges [] = omega arith
length-trim_ranges (r ∷ rs) = ground (arith, length-drop (length (r ∷ rs) - 7) (r ∷ rs))

-- A receiver's acknowledgement, built from its expected nonce and the keys of its reorder buffer
-- (all of them 64-bit words), is read back by the sender as the trimmed ranges, at most eight.
pub parse_ack_ranges-build_ack_payload :
    (expected : ℕ) (keys : List ℕ)
    → expected ≤ u64_max
    → All (λ k. k ≤ u64_max) keys
    → (parse_ack_ranges (build_ack_payload expected keys)
        ≡ ok (trim_ranges (all_ranges expected keys)))
      × (length (trim_ranges (all_ranges expected keys)) ≤ 8)
unfolding build_ack_payload
parse_ack_ranges-build_ack_payload expected keys e h =
    let few = length-trim_ranges (all_ranges expected keys) in
    (
      parse_ack_ranges-encode_ranges (trim_ranges (all_ranges expected keys))
          (trim-IsWords (all_ranges expected keys) (all_ranges-IsWords expected keys e h))
          (omega (arith, few)),
      few,
    )
