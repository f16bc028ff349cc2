-- ===== src/Framing/RoundTrip.antt =====
-- Encoding and decoding of frames (ostp-core/src/framing/frame.rs) are inverse, and what a decoder
-- accepts.
use mathlib.Core.List.{append_assoc}
use ostp.Prelude.{
  ℕ, ◌+◌, ◌^◌, ◌≤◌, ◌<◌, ◌≡◌, true, refl, sym, ap, ◌∙◌, ◌↔◌, List, ◌++◌, length, take, drop, get_or,
  arith, to_be_bytes, from_be_bytes, from_be_bytes-to_be_bytes, length-append, length-take,
  take-append, drop-append, drop-drop, take-drop-take, get_or-take,
}
use ostp.Outcome.{ok, is_ok}
use ostp.Framing.{
  FrameKind, FrameHeader, FramedPacket, kind_byte, try_from, encode_header, decode_header, encode,
  decode_zero_copy,
}

-- The lengths that the header announces are those of the packet, and every field fits its width.
pub record IsWellFormed (p : FramedPacket) : Type 0 where
  pub version_byte : p.header.version < 256
  pub stream_word : p.header.stream_id < 2 ^ 16
  pub payload_word : p.header.payload_len < 2 ^ 32
  pub pad_word : p.header.pad_len < 2 ^ 16
  pub payload_length : length p.payload ≡ p.header.payload_len
  pub pad_length : length p.padding ≡ p.header.pad_len

try_from-kind_byte : (k : FrameKind) → try_from (kind_byte k) ≡ ok k
unfolding try_from
try_from-kind_byte FrameKind.handshake = refl
try_from-kind_byte FrameKind.data_frame = refl
try_from-kind_byte FrameKind.close = refl
try_from-kind_byte FrameKind.keep_alive = refl
try_from-kind_byte FrameKind.nack = refl
try_from-kind_byte FrameKind.ack = refl

length-encode_header : (r0 r1 : ℕ) (h : FrameHeader) → length (encode_header r0 r1 h) ≡ 12
unfolding encode_header to_be_bytes
length-encode_header r0 r1 h = refl

decode_header-encode_header :
    (r0 r1 : ℕ) (h : FrameHeader)
    → h.stream_id < 2 ^ 16
    → h.payload_len < 2 ^ 32
    → h.pad_len < 2 ^ 16
    → decode_header (encode_header r0 r1 h) ≡ ok h
unfolding decode_header encode_header to_be_bytes
decode_header-encode_header r0 r1 h s l p = rw (try_from-kind_byte h.kind) (
    ground (
      arith,
      from_be_bytes-to_be_bytes 2 h.stream_id (omega arith),
      from_be_bytes-to_be_bytes 4 h.payload_len (omega arith),
      from_be_bytes-to_be_bytes 2 h.pad_len (omega arith),
    ))

-- A buffer whose parts are known decodes to the packet of these parts.
decode_parts :
    (usize_max : ℕ) (buf bytes payload padding tail end : List ℕ) (h : FrameHeader)
    → take 12 buf ≡ bytes
    → decode_header bytes ≡ ok h
    → drop 12 buf ≡ tail
    → take h.payload_len tail ≡ payload
    → drop (12 + h.payload_len) buf ≡ end
    → take h.pad_len end ≡ padding
    → 12 + h.payload_len + h.pad_len ≤ length buf
    → 12 + h.payload_len + h.pad_len ≤ usize_max
    → decode_zero_copy usize_max buf
      ≡ ok (record { header = h; payload = payload; padding = padding })
unfolding decode_zero_copy
decode_parts usize_max buf bytes payload padding tail end h e1 hd e2 e3 e4 e5 len fits =
    ground arith

-- A well-formed packet, encoded with any reserved bytes and followed by any further bytes, decodes
-- to itself, if its length can be written as a `usize` of the target.
pub decode_zero_copy-encode :
    (usize_max r0 r1 : ℕ) (p : FramedPacket) (rest : List ℕ)
    → IsWellFormed p
    → 12 + p.header.payload_len + p.header.pad_len ≤ usize_max
    → decode_zero_copy usize_max (encode r0 r1 p ++ rest) ≡ ok p
unfolding encode
decode_zero_copy-encode usize_max r0 r1 p rest v fits =
    let bytes = encode_header r0 r1 p.header in
    let tail = p.payload ++ (p.padding ++ rest) in
    let e : (bytes ++ (p.payload ++ p.padding)) ++ rest ≡ bytes ++ tail = simp append_assoc in
    let len = length-encode_header r0 r1 p.header in
    rw e (
      decode_parts usize_max (bytes ++ tail) bytes p.payload p.padding tail (p.padding ++ rest)
        p.header (take-append 12 bytes tail len)
        (decode_header-encode_header r0 r1 p.header v.stream_word v.payload_word v.pad_word)
        (drop-append 12 bytes tail len)
        (take-append p.header.payload_len p.payload (p.padding ++ rest) v.payload_length)
        (sym (drop-drop p.header.payload_len 12 (bytes ++ tail))
          ∙ ap (drop p.header.payload_len) (drop-append 12 bytes tail len)
          ∙ drop-append p.header.payload_len p.payload (p.padding ++ rest) v.payload_length)
        (take-append p.header.pad_len p.padding rest v.pad_length)
        (omega (
          arith,
          len,
          length-append bytes tail,
          length-append p.payload (p.padding ++ rest),
          length-append p.padding rest,
        ))
        fits)

try_from_accepts : (v : ℕ) → (is_ok (try_from v) ≡ true) ↔ ((0 < v) × (v ≤ 6))
unfolding try_from
try_from_accepts v = ground arith

-- The decoder accepts exactly the buffers that hold a header with a kind from 1 to 6 and all the
-- bytes that the header announces, where their number is a `usize`.
pub decode_zero_copy_accepts :
    (usize_max : ℕ) (buf : List ℕ)
    → let announced =
        12 + from_be_bytes (take 4 (drop 6 buf)) + from_be_bytes (take 2 (drop 10 buf)) in
      (is_ok (decode_zero_copy usize_max buf) ≡ true) ↔ (
        (announced ≤ length buf)
        × (announced ≤ usize_max)
        × (0 < get_or buf 1 0)
        × (get_or buf 1 0 ≤ 6))
unfolding decode_zero_copy decode_header
decode_zero_copy_accepts usize_max buf = ground (
  arith,
  length-take 12 buf,
  take-drop-take 6 4 12 buf (omega arith),
  take-drop-take 10 2 12 buf (omega arith),
  get_or-take 1 12 0 buf (omega arith),
  try_from_accepts (get_or buf 1 0),
)
