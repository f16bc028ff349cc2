-- ===== src/Acks/Coverage.antt =====
-- Which nonces an acknowledgement of ostp-core/src/protocol.rs covers.
use ostp.Prelude.{
  ℕ, zero, suc, ◌+◌, ◌-◌, ◌≤◌, ◌<◌, ◌≡◌, refl, sym, ◌∙◌, Bool, true, false, none, some, List, [],
  ◌∷◌, length, drop, any, arith, ltb, leb, ◌==◌, ◌&&◌, ◌||◌, inl, inr, Bool-cases,
}
use ostp.Acks.{coalesce, all_ranges, trim_ranges, in_range, nonce_in_ranges}

-- The nonce was received: in order, or into the reorder buffer.
abbrev pub received : ℕ → List ℕ → ℕ → Bool
received expected keys n = ltb n expected || any (λ k. n == k) keys

range_joins :
    (n start last k : ℕ) (b : Bool)
    → start ≤ last
    → k ≡ last + 1
    → ((leb start n && leb n k) || b) ≡ ((leb start n && leb n last) || (n == k || b))
range_joins n start last k true h e = ground arith
range_joins n start last k false h e = ground arith

point_range : (n k : ℕ) (a b : Bool) → (a || ((leb k n && leb n k) || b)) ≡ (a || (n == k || b))
point_range n k true b = refl
point_range n k false true = ground arith
point_range n k false false = ground arith

coalesce-any :
    (n start last : ℕ) (ks : List ℕ)
    → start ≤ last
    → any (in_range n) (coalesce (some (start, last)) ks)
      ≡ ((leb start n && leb n last) || any (λ k. n == k) ks)
unfolding coalesce
coalesce-any n start last [] h = refl
coalesce-any n start last (k ∷ ks) h = elim (Bool-cases (k == last + 1)) [
  | inl next ↦
      let e : k ≡ last + 1 = ground arith in
      rw (next, coalesce)
        (rw (coalesce-any n start k ks (omega arith))
          (range_joins n start last k (any (λ x. n == x) ks) h e))
  | inr gap ↦
      rw (gap, coalesce)
        (rw (coalesce-any n k k ks (omega arith))
          (point_range n k (leb start n && leb n last) (any (λ x. n == x) ks)))
]

coalesce-none-any :
    (n : ℕ) (ks : List ℕ) → any (in_range n) (coalesce none ks) ≡ any (λ k. n == k) ks
unfolding coalesce
coalesce-none-any n [] = refl
coalesce-none-any n (k ∷ ks) = ground (arith, coalesce-any n k k ks (omega arith))

-- Before trimming, the ranges cover exactly the nonces that were received.
pub all_ranges_cover :
    (expected : ℕ) (keys : List ℕ) (n : ℕ)
    → nonce_in_ranges n (all_ranges expected keys) ≡ received expected keys n
unfolding all_ranges nonce_in_ranges
all_ranges_cover expected keys n = ground (arith, coalesce-none-any n keys)

any-drop :
    {A : Type 0} (p : A → Bool) (j : ℕ) (xs : List A) → any p (drop j xs) ≡ true → any p xs ≡ true
any-drop p zero xs h = h
any-drop p (suc j) [] h = h
any-drop p (suc j) (x ∷ xs) h = ground (arith, any-drop p j xs h)

trim-any : (p : ℕ × ℕ → Bool) (rs : List (ℕ × ℕ)) → any p (trim_ranges rs) ≡ true → any p rs ≡ true
unfolding trim_ranges
trim-any p [] h = h
trim-any p (r ∷ rs) h = ground (arith, any-drop p (length (r ∷ rs) - 7) (r ∷ rs))

-- An acknowledgement is honest: whatever the number of gaps, a nonce that it covers was received.
pub trim_ranges_honest :
    (expected : ℕ) (keys : List ℕ) (n : ℕ)
    → nonce_in_ranges n (trim_ranges (all_ranges expected keys)) ≡ true
    → received expected keys n ≡ true
unfolding nonce_in_ranges
trim_ranges_honest expected keys n h =
    sym (all_ranges_cover expected keys n) ∙ trim-any (in_range n) (all_ranges expected keys) h

first_kept :
    (n : ℕ) (r : ℕ × ℕ) (rs : List (ℕ × ℕ))
    → in_range n r ≡ true
    → any (in_range n) (trim_ranges (r ∷ rs)) ≡ true
unfolding trim_ranges
first_kept n r rs h = ground arith

-- An acknowledgement is cumulative: trimmed or not, it covers every nonce below the expected one.
pub trim_ranges_cumulative :
    (expected : ℕ) (keys : List ℕ) (n : ℕ)
    → n < expected
    → nonce_in_ranges n (trim_ranges (all_ranges expected keys)) ≡ true
unfolding nonce_in_ranges all_ranges
trim_ranges_cumulative expected keys n h =
    let pos : ltb 0 expected ≡ true = ground arith in
    rw pos (first_kept n (0, expected - 1) (coalesce none keys) (ground arith))
