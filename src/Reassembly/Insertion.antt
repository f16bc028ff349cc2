-- ===== src/Reassembly/Insertion.antt =====
-- The order of a group's fragments in ostp-client/src/tunnel/ip_reasm.rs.
use ostp.Prelude.{ℕ, ◌<◌, List, [], ◌∷◌, ltb, ◌==◌, arith, Bool-cases, inl, inr, All}
use ostp.Reassembly.{put_part}
use ostp.Reassembly.Pieces.{IsSortedParts}

put_part-above :
    (lo off : ℕ) (part : List ℕ) (parts : List (ℕ × List ℕ))
    → lo < off
    → All (λ x. lo < x.0) parts
    → All (λ x. lo < x.0) (put_part off part parts)
unfolding put_part
put_part-above lo off part [] h above = (h, tt)
put_part-above lo off part ((o, p) ∷ rest) h above = elim (Bool-cases (ltb off o)) [
  | inl q ↦ rw q (h, above)
  | inr q ↦ elim (Bool-cases (off == o)) [
    | inl r ↦ rw (q, r) above
    | inr r ↦ rw (q, r) (above.0, put_part-above lo off part rest h above.1)
  ]
]

above_lower :
    (lo hi : ℕ) (parts : List (ℕ × List ℕ))
    → lo < hi
    → All (λ x. hi < x.0) parts
    → All (λ x. lo < x.0) parts
above_lower lo hi [] h above = tt
above_lower lo hi (x ∷ parts) h above =
    (omega (arith, h, above.0), above_lower lo hi parts h above.1)

-- A group's fragments stay in the order of their offsets, whatever order they arrive in.
pub put_part-IsSortedParts :
    (off : ℕ) (part : List ℕ) (parts : List (ℕ × List ℕ))
    → IsSortedParts parts
    → IsSortedParts (put_part off part parts)
unfolding put_part
put_part-IsSortedParts off part [] sorted = (tt, tt)
put_part-IsSortedParts off part ((o, p) ∷ rest) sorted = elim (Bool-cases (ltb off o)) [
  | inl q ↦
      let less : off < o = ground (arith, q) in
      rw q ((less, above_lower off o rest less sorted.0), sorted)
  | inr q ↦ elim (Bool-cases (off == o)) [
    | inl r ↦ rw (q, r) sorted
    | inr r ↦
        rw (q, r)
          (
            put_part-above o off part rest (ground (arith, q, r)) sorted.0,
            put_part-IsSortedParts off part rest sorted.1,
          )
  ]
]
