-- ===== src/Uot.antt =====
-- ostp-server/src/transport/uot.rs: datagrams over a stream. The stream's bytes arrive in pieces of any size;
-- a connection that ends or is idle in the middle of a frame gives nothing more.
pub mod Streams
use ostp.Prelude.{
  ℕ, zero, suc, ◌+◌, ◌-◌, ◌%◌, ◌^◌, Bool, Option, none, some, List, [], ◌∷◌, ◌++◌, length, take,
  drop, ltb, if◌then◌else◌, from_be_bytes, to_be_bytes,
}

-- What the writer puts on the stream for a datagram: `len() as u16`, and the datagram.
unfoldable pub frame : List ℕ → List ℕ
frame packet = to_be_bytes 2 (length packet % 2 ^ 16) ++ packet

unfoldable pub write_all : List (List ℕ) → List ℕ
unfolding frame
write_all [] = []
write_all (packet ∷ rest) = frame packet ++ write_all rest

-- `read_exact` of the length and of the datagram: it, and what is left of the bytes.
unfoldable pub read_frame : List ℕ → Option (List ℕ × List ℕ)
read_frame bytes =
    let size : ℕ = from_be_bytes (take 2 bytes) in
    if ltb (length bytes) 2
    then none
    else if ltb (length bytes) (2 + size)
    then none
    else some (take size (drop 2 bytes), drop (2 + size) bytes)

abbrev pub first_and :
    Option (List ℕ × List ℕ) → (List ℕ → List (List ℕ) × List ℕ) → List ℕ → List (List ℕ) × List ℕ
first_and none rest bytes = ([], bytes)
first_and (some (packet, left)) rest bytes = (packet ∷ (rest left).0, (rest left).1)

-- The loop: the datagrams that are complete, and the bytes that wait for more.
unfoldable pub read_frames : ℕ → List ℕ → List (List ℕ) × List ℕ
unfolding read_frame
read_frames zero bytes = ([], bytes)
read_frames (suc fuel) bytes = first_and (read_frame bytes) (read_frames fuel) bytes

-- The reader over the pieces of the stream as they arrive: what it had of a frame waits for the next.
unfoldable pub read_pieces : List ℕ → List (List ℕ) → List (List ℕ)
unfolding read_frames
read_pieces waiting [] = []
read_pieces waiting (piece ∷ pieces) =
    let bytes = waiting ++ piece in
    let r = read_frames (length bytes) bytes in r.0 ++ read_pieces r.1 pieces
