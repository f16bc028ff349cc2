-- ===== src/Framing.antt =====
-- ostp-core/src/framing/frame.rs: the frame inside an encrypted datagram. Bytes are numbers below
-- 256; the two reserved bytes, random in the source, are arguments of `encode`.
pub mod RoundTrip
pub mod Padding
use ostp.Prelude.{
  ℕ, zero, suc, ◌+◌, ◌-◌, ◌^◌, ◌≤◌, ◌<◌, Option, none, some, Bool, true, false, List, [], ◌∷◌, ◌++◌,
  length, take, drop, get_or, ltb, leb, ◌==◌, if◌then◌else◌, to_be_bytes, from_be_bytes,
}
use ostp.Outcome.{Outcome, ok, err, panic, framing, ◌>>=◌, ok_or}

abbrev pub frame_header_len : ℕ
frame_header_len = 12

pub data FrameKind : Type 0 where
  handshake data_frame close keep_alive nack ack : FrameKind

-- `self.kind as u8`
abbrev pub kind_byte : FrameKind → ℕ
kind_byte FrameKind.handshake = 1
kind_byte FrameKind.data_frame = 2
kind_byte FrameKind.close = 3
kind_byte FrameKind.keep_alive = 4
kind_byte FrameKind.nack = 5
kind_byte FrameKind.ack = 6

unfoldable pub try_from : ℕ → Outcome FrameKind
try_from value =
    if value == 1
    then ok FrameKind.handshake
    else if value == 2
    then ok FrameKind.data_frame
    else if value == 3
    then ok FrameKind.close
    else if value == 4
    then ok FrameKind.keep_alive
    else if value == 5
    then ok FrameKind.nack
    else if value == 6
    then ok FrameKind.ack
    else err framing

pub record FrameHeader : Type 0 where
  pub version : ℕ
  pub kind : FrameKind
  pub stream_id : ℕ
  pub payload_len : ℕ
  pub pad_len : ℕ

pub record FramedPacket : Type 0 where
  pub header : FrameHeader
  pub payload : List ℕ
  pub padding : List ℕ

unfoldable pub encode_header : ℕ → ℕ → FrameHeader → List ℕ
encode_header r0 r1 h =
    h.version
    ∷ kind_byte h.kind
    ∷ r0
    ∷ r1
    ∷ (to_be_bytes 2 h.stream_id ++ (to_be_bytes 4 h.payload_len ++ to_be_bytes 2 h.pad_len))

unfoldable pub decode_header : List ℕ → Outcome FrameHeader
decode_header buf = if ltb (length buf) frame_header_len then err framing else do
  kind ← try_from (get_or buf 1 0)
  ok (record {
    version = get_or buf 0 0;
    kind = kind;
    stream_id = from_be_bytes (take 2 (drop 4 buf));
    payload_len = from_be_bytes (take 4 (drop 6 buf));
    pad_len = from_be_bytes (take 2 (drop 10 buf));
  })

unfoldable pub encode : ℕ → ℕ → FramedPacket → List ℕ
encode r0 r1 p = encode_header r0 r1 p.header ++ (p.payload ++ p.padding)

-- `usize::checked_add`, for the target's largest `usize`
abbrev pub checked_add : ℕ → ℕ → ℕ → Option ℕ
checked_add usize_max a b = if leb (a + b) usize_max then some (a + b) else none

abbrev and_then : Option ℕ → (ℕ → Option ℕ) → Option ℕ
and_then none k = none
and_then (some v) k = k v

-- The slices of a packet whose length is checked already.
abbrev slice_packet : FrameHeader → List ℕ → FramedPacket
slice_packet header buf = record {
  header = header;
  payload = take header.payload_len (drop frame_header_len buf);
  padding = take header.pad_len (drop (frame_header_len + header.payload_len) buf);
}

unfoldable pub decode_zero_copy : ℕ → List ℕ → Outcome FramedPacket
decode_zero_copy usize_max buf = if ltb (length buf) frame_header_len then err framing else do
  header ← decode_header (take frame_header_len buf)
  expected ←
      ok_or
        (and_then (checked_add usize_max frame_header_len header.payload_len)
          (λ v. checked_add usize_max v header.pad_len))
        framing
  if ltb (length buf) expected then err framing else ok (slice_packet header buf)
