-- ===== src/Tests/Fragments.antt =====
-- Fragments of IPv4 packets on concrete inputs.
use ostp.Prelude.{
  ℕ, zero, suc, ◌+◌, ◌≤◌, ◌<◌, ◌≡◌, refl, some, List, [], ◌∷◌, length, drop, get_or, All, arith,
  inl, inr,
}
use ostp.Outcome.{ok}
use ostp.Reassembly.{Group, complete, max_groups}
use ostp.Reassembly.Groups.{process_all, new_reassembler}
use ostp.Reassembly.Groups.Safety.{IsCalm, reassembler_is_safe}
use ostp.Reassembly.Pieces.{HasByte}
use ostp.Reassembly.Datagram.{datagram_reassembled}
use ostp.Tests.World.{zero_bytes, length-zero_bytes}

-- A frame that is too short, and the first fragment of a packet.
abbrev frames : List (ℕ × List ℕ)
frames = (5, 69 ∷ []) ∷ (6, 69 ∷ 0 ∷ 0 ∷ 28 ∷ 0 ∷ 1 ∷ 32 ∷ 0 ∷ 64 ∷ 17 ∷ zero_bytes 18) ∷ []

reassembler_is_safe_example :
    All IsCalm ((process_all frames (new_reassembler 5)).0)
    × (length ((process_all frames (new_reassembler 5)).1).groups ≤ max_groups)
reassembler_is_safe_example = reassembler_is_safe frames 5

abbrev datagram : List ℕ
datagram = 7 ∷ 8 ∷ 9 ∷ []

abbrev front : List ℕ
front = 7 ∷ 8 ∷ []

abbrev rear : List ℕ
rear = 8 ∷ 9 ∷ []

-- Two fragments that overlap in the second byte.
abbrev overlapping : Group
overlapping = record {
  parts = (0, front) ∷ (1, rear) ∷ [];
  header = some (zero_bytes 20);
  total_len = some 3;
  first_seen = 5;
}

first_piece : (i : ℕ) → i < 2 → get_or front i 0 ≡ get_or datagram (0 + i) 0
first_piece zero h = refl
first_piece (suc zero) h = refl
first_piece (suc (suc i)) h = absurd (omega (arith, h))

second_piece : (i : ℕ) → i < 2 → get_or rear i 0 ≡ get_or datagram (1 + i) 0
second_piece zero h = refl
second_piece (suc zero) h = refl
second_piece (suc (suc i)) h = absurd (omega (arith, h))

three_bytes : (i : ℕ) → i < 3 → HasByte i overlapping.parts
three_bytes zero h = inl (omega arith, omega arith)
three_bytes (suc zero) h = inl (omega arith, omega arith)
three_bytes (suc (suc zero)) h = inr (inl (omega arith, omega arith))
three_bytes (suc (suc (suc i))) h = absurd (omega (arith, h))

datagram_reassembled_example :
    (packet : List ℕ) × (complete overlapping ≡ some (ok packet))
    × (drop (length (zero_bytes 20)) packet ≡ datagram)
datagram_reassembled_example =
    datagram_reassembled datagram (zero_bytes 20) overlapping refl refl
      (omega (arith, length-zero_bytes 20)) ((omega arith, tt), (tt, tt))
      ((omega arith, first_piece), ((omega arith, second_piece), tt)) three_bytes
