-- ===== src/Reassembly/Datagram.antt =====
-- The fragments of one datagram in ostp-client/src/tunnel/ip_reasm.rs give that datagram.
use ostp.Prelude.{
  ap, ℕ, ◌+◌, ◌%◌, ◌≤◌, ◌<◌, ◌≡◌, refl, ◌∙◌, false, some, List, [], ◌∷◌, ◌++◌, length, take, drop,
  ltb, arith, inl, All, length-append, drop-append, length-to_be_bytes, to_be_bytes,
}
use ostp.Reassembly.Bytes.{same_bytes, length-zeros, length-overwrite, drop-overwrite}
use ostp.Outcome.{ok}
use ostp.Reassembly.{
  Group, overwrite, unsummed, summed, build_reassembled, ipv4_checksum, copy_parts, zeros, complete,
}
use ostp.Reassembly.Pieces.{IsPiece, IsSortedParts, HasByte, walk_reaches, copy_parts_puts}

-- All bytes are there.
parts_give :
    (datagram : List ℕ) (parts : List (ℕ × List ℕ))
    → All (IsPiece datagram) parts
    → ((i : ℕ) → i < length datagram → HasByte i parts)
    → copy_parts (length datagram) parts (zeros (length datagram)) ≡ ok datagram
parts_give datagram parts pieces all =
    let (out, done, size, put) =
      copy_parts_puts datagram parts (zeros (length datagram)) pieces
        (length-zeros (length datagram)) in
    done ∙ ap ok (same_bytes out datagram size (λ i lt. put i lt (inl (all i lt))))

overwrite_keeps :
    (n at : ℕ) (bytes out rest : List ℕ)
    → at + length bytes ≤ n
    → n ≤ length out
    → drop n out ≡ rest
    → (n ≤ length (overwrite at bytes out)) × (drop n (overwrite at bytes out) ≡ rest)
overwrite_keeps n at bytes out rest before room e = (
  omega (arith, room, length-overwrite at bytes out (omega (arith, before, room))),
  drop-overwrite at bytes out (omega (arith, before, room)) n before room ∙ e,
)

-- The packet is the header with some of its first twelve bytes changed, and the payload.
build_reassembled_keeps :
    (header payload : List ℕ)
    → 20 ≤ length header
    → (packet : List ℕ) × (build_reassembled header payload ≡ ok packet)
      × (drop (length header) packet ≡ payload)
unfolding build_reassembled
build_reassembled_keeps header payload long =
    let n = length header in
    let total : ℕ = (n + length payload) % 65536 in
    let two = length-to_be_bytes 2 total in
    let first =
      overwrite_keeps n 2 (to_be_bytes 2 total) (header ++ payload) payload
        (omega (arith, two, long)) (omega (arith, length-append header payload))
        (drop-append n header payload refl) in
    let flags = overwrite_keeps n 6 (0 ∷ 0 ∷ []) _ payload (omega (arith, long)) first.0 first.1 in
    let sum = overwrite_keeps n 10 (0 ∷ 0 ∷ []) _ payload (omega (arith, long)) flags.0 flags.1 in
    let out = unsummed header payload in
    let check = ipv4_checksum (take n out) in
    let last =
      overwrite_keeps n 10 (to_be_bytes 2 check) out payload
        (omega (arith, length-to_be_bytes 2 check, long)) sum.0 sum.1 in
    let room : ltb (n + length payload) 12 ≡ false = ground (arith, long) in
    (summed check out, rw room refl, last.1)

-- A group that has its first fragment and the end, and a fragment for every byte, gives a packet: after
-- its header stands the datagram that the fragments are pieces of, however they overlap.
pub datagram_reassembled :
    (datagram header : List ℕ) (g : Group)
    → g.header ≡ some header
    → g.total_len ≡ some (length datagram)
    → 20 ≤ length header
    → IsSortedParts g.parts
    → All (IsPiece datagram) g.parts
    → ((i : ℕ) → i < length datagram → HasByte i g.parts)
    → (packet : List ℕ) × (complete g ≡ some (ok packet)) × (drop (length header) packet ≡ datagram)
unfolding complete
datagram_reassembled datagram header g h t long sorted pieces all =
    let (end, walked, reaches) =
      walk_reaches datagram 0 g.parts sorted pieces (λ i le lt. all i lt) in
    let (packet, built, rest) = build_reassembled_keeps header datagram long in
    let enough : ltb end (length datagram) ≡ false = ground (arith, reaches) in
    (packet, rw (t, h, walked, enough, parts_give datagram g.parts pieces all, built) refl, rest)
