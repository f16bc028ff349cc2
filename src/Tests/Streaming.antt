-- ===== src/Tests/Streaming.antt =====
-- Datagrams over a stream that is cut in the middle of a length and of a datagram.
use ostp.Prelude.{ℕ, ◌≡◌, refl, List, [], ◌∷◌, to_be_bytes, arith}
use ostp.Uot.{read_pieces, write_all, frame}
use ostp.Uot.Streams.{read_pieces-write_all}

abbrev datagrams : List (List ℕ)
datagrams = (7 ∷ 8 ∷ []) ∷ (9 ∷ []) ∷ []

abbrev cuts : List (List ℕ)
cuts = (0 ∷ []) ∷ (2 ∷ 7 ∷ []) ∷ (8 ∷ 0 ∷ 1 ∷ 9 ∷ []) ∷ []

read_pieces-write_all_example : read_pieces [] cuts ≡ datagrams
unfolding write_all frame to_be_bytes
read_pieces-write_all_example =
    read_pieces-write_all datagrams cuts (omega arith, (omega arith, tt)) refl
