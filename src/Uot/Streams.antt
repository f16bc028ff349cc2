-- ===== src/Uot/Streams.antt =====
-- The reader of ostp-server/src/transport/uot.rs gives back what the writer wrote, however the stream is cut.
use mathlib.Core.List.{append-nil, append_assoc}
use ostp.Prelude.{
  ℕ, zero, suc, ◌+◌, ◌%◌, ◌^◌, ◌≤◌, ◌<◌, ◌≡◌, refl, sym, ap, ◌∙◌, subst, true, false, none, some,
  List, [], ◌∷◌, ◌++◌, length, take, drop, ltb, if◌then◌else◌, from_be_bytes, to_be_bytes, arith,
  All, Bool-cases, inl, inr, length-append, drop-drop, take-append, drop-append, length-to_be_bytes,
  from_be_bytes-to_be_bytes,
}
use ostp.Uot.{frame, write_all, read_frame, first_and, read_frames, read_pieces}

abbrev pub concat : List (List ℕ) → List ℕ
concat [] = []
concat (x ∷ xs) = x ++ concat xs

-- Of two ways to cut a list, the one that cuts later begins with the other's front.
cut_later :
    (xs ys front bs : List ℕ)
    → xs ++ ys ≡ front ++ bs
    → length front ≤ length xs
    → (c : List ℕ) × (xs ≡ front ++ c) × (c ++ ys ≡ bs)
cut_later xs ys [] bs e h = (xs, refl, e)
cut_later [] ys (a ∷ front) bs e h = absurd (omega (arith, h))
cut_later (x ∷ xs) ys (a ∷ front) bs e h =
    let same : x ≡ a = cc in
    let tails : xs ++ ys ≡ front ++ bs = cc in
    let r = cut_later xs ys front bs tails (omega (arith, h)) in
    (r.0, rw same (ap (◌∷◌ a) r.1), r.2)

-- What is read of a length and the bytes that follow.
read_after :
    (n : ℕ) (c : List ℕ)
    → n < 2 ^ 16
    → read_frame (to_be_bytes 2 n ++ c)
      ≡ (if ltb (length c) n then none else some (take n c, drop n c))
unfolding read_frame
read_after n c small =
    let head = to_be_bytes 2 n in
    let two = length-to_be_bytes 2 n in
    let bytes = head ++ c in
    let long = length-append head c in
    let size : from_be_bytes (take 2 bytes) ≡ n =
      ap from_be_bytes (take-append 2 head c two)
      ∙ from_be_bytes-to_be_bytes 2 n (omega (arith, small)) in
    let body : drop 2 bytes ≡ c = drop-append 2 head c two in
    let rest : drop (2 + n) bytes ≡ drop n c = sym (drop-drop n 2 bytes) ∙ ap (drop n) body in
    let room : ltb (length bytes) 2 ≡ false = ground (arith, long, two) in
    let enough : ltb (length bytes) (2 + n) ≡ ltb (length c) n =
      shorter (length bytes) (length c) n (omega (arith, long, two)) in
    rw (size, body, rest, room, enough) refl
  where
    shorter : (a b n : ℕ) → a ≡ 2 + b → ltb a (2 + n) ≡ ltb b n
    shorter a b n e = elim (Bool-cases (ltb b n)) [
      | inl q ↦ rw q (ground (arith, e, q))
      | inr q ↦ rw q (ground (arith, e, q))
    ]

-- Too few bytes.
read_short : (bytes : List ℕ) → length bytes < 2 → read_frame bytes ≡ none
unfolding read_frame
read_short bytes h = let short : ltb (length bytes) 2 ≡ true = ground (arith, h) in rw short refl

-- A datagram whose length the prefix can hold.
abbrev pub IsShort : List ℕ → Type 0
IsShort packet = length packet < 2 ^ 16

written :
    (packet : List ℕ) (rest : List (List ℕ))
    → IsShort packet
    → write_all (packet ∷ rest) ≡ to_be_bytes 2 (length packet) ++ (packet ++ write_all rest)
unfolding write_all frame
written packet rest short =
    let whole : length packet % 2 ^ 16 ≡ length packet = omega (arith, short) in
    rw whole (append_assoc (to_be_bytes 2 (length packet)) packet (write_all rest))

read_whole :
    (packet left : List ℕ)
    → IsShort packet
    → read_frame (to_be_bytes 2 (length packet) ++ (packet ++ left)) ≡ some (packet, left)
read_whole packet left short =
    let n = length packet in
    let room : ltb (length (packet ++ left)) n ≡ false =
      ground (arith, length-append packet left) in
    read_after n (packet ++ left) short
    ∙ rw (room, take-append n packet left refl, drop-append n packet left refl) refl

-- The bytes of a frame that is not complete.
read_part :
    (bytes tail packet : List ℕ) (rest : List (List ℕ))
    → IsShort packet
    → bytes ++ tail ≡ write_all (packet ∷ rest)
    → length bytes < 2 + length packet
    → read_frame bytes ≡ none
read_part bytes tail packet rest short e part = elim (Bool-cases (ltb (length bytes) 2)) [
  | inl q ↦ read_short bytes (ground (arith, q))
  | inr q ↦
      let head = to_be_bytes 2 (length packet) in
      let two = length-to_be_bytes 2 (length packet) in
      let (c, cut, more) =
        cut_later bytes tail head (packet ++ write_all rest) (e ∙ written packet rest short)
          (ground (arith, q, two)) in
      let few : ltb (length c) (length packet) ≡ true =
        ground (arith, part, two, ap length cut, length-append head c) in
      rw cut (read_after (length packet) c short ∙ rw few refl)
]

-- What is read of a part of the stream: the first datagrams, until a frame that is not complete.
record Reads (packets : List (List ℕ)) (tail : List ℕ) (r : List (List ℕ) × List ℕ) : Type 0 where
  later : List (List ℕ)
  split : packets ≡ r.0 ++ later
  goes_on : r.1 ++ tail ≡ write_all later
  waits : read_frame r.1 ≡ none
  shorts : All IsShort later

read_prefix :
    (fuel : ℕ) (bytes tail : List ℕ) (packets : List (List ℕ))
    → All IsShort packets
    → length bytes ≤ fuel
    → bytes ++ tail ≡ write_all packets
    → Reads packets tail (read_frames fuel bytes)
unfolding read_frames write_all
read_prefix zero [] tail packets short enough e = record {
  later = packets;
  split = refl;
  goes_on = e;
  waits = read_short [] (omega arith);
  shorts = short;
}
read_prefix zero (b ∷ bytes) tail packets short enough e = absurd (omega (arith, enough))
read_prefix (suc fuel) [] tail [] short enough e =
    subst (λ o. Reads [] tail (first_and o (read_frames fuel) []))
      (sym (read_short [] (omega arith)))
      (record {
        later = [];
        split = refl;
        goes_on = e;
        waits = read_short [] (omega arith);
        shorts = tt;
      })
read_prefix (suc fuel) (b ∷ bytes) tail [] short enough e = absurd cc
read_prefix (suc fuel) bytes tail (packet ∷ rest) short enough e =
    elim (Bool-cases (ltb (length bytes) (2 + length packet))) [
      | inl q ↦
          let none_yet = read_part bytes tail packet rest short.0 e (ground (arith, q)) in
          rw none_yet (record {
            later = packet ∷ rest;
            split = refl;
            goes_on = e;
            waits = none_yet;
            shorts = short;
          })
      | inr q ↦
          let head = to_be_bytes 2 (length packet) in
          let two = length-to_be_bytes 2 (length packet) in
          let (c, cut, more) =
            cut_later bytes tail head (packet ++ write_all rest) (e ∙ written packet rest short.0)
              (ground (arith, q, two)) in
          let (left, cut', more') =
            cut_later c tail packet (write_all rest) more
              (ground (arith, q, two, ap length cut, length-append head c)) in
          let one : read_frame bytes ≡ some (packet, left) =
            rw (cut, cut') (read_whole packet left short.0) in
          let r =
            read_prefix fuel left tail rest short.1
              (omega (
                arith,
                enough,
                two,
                ap length cut,
                length-append head c,
                ap length cut',
                length-append packet left,
              ))
              more' in
          rw one (record {
            later = r.later;
            split = ap (◌∷◌ packet) r.split;
            goes_on = r.goes_on;
            waits = r.waits;
            shorts = r.shorts;
          })
    ]

read_on :
    (waiting : List ℕ) (pieces packets : List (List ℕ))
    → All IsShort packets
    → waiting ++ concat pieces ≡ write_all packets
    → read_frame waiting ≡ none
    → read_pieces waiting pieces ≡ packets
unfolding read_pieces
read_on waiting [] [] short e waits = refl
read_on waiting [] (packet ∷ rest) short e waits =
    let all : waiting ≡ to_be_bytes 2 (length packet) ++ (packet ++ write_all rest) =
      sym (append-nil waiting) ∙ (e ∙ written packet rest short.0) in
    let whole : read_frame waiting ≡ some (packet, write_all rest) =
      rw all (read_whole packet (write_all rest) short.0) in
    absurd cc
read_on waiting (piece ∷ pieces) packets short e waits =
    let bytes = waiting ++ piece in
    let r =
      read_prefix (length bytes) bytes (concat pieces) packets short (omega arith)
        (append_assoc waiting piece (concat pieces) ∙ e) in
    let later =
      read_on ((read_frames (length bytes) bytes).1) pieces r.later r.shorts r.goes_on r.waits in
    rw later (sym r.split)

-- The reader gives exactly the datagrams that the writer put on the stream, in their order, in
-- whatever pieces the stream's bytes arrive; datagrams of less than 65,536 bytes.
pub read_pieces-write_all :
    (packets pieces : List (List ℕ))
    → All IsShort packets
    → concat pieces ≡ write_all packets
    → read_pieces [] pieces ≡ packets
read_pieces-write_all packets pieces short e =
    read_on [] pieces packets short e (read_short [] (omega arith))
