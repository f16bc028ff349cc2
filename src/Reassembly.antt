-- ===== src/Reassembly.antt =====
-- ostp-client/src/tunnel/ip_reasm.rs: IPv4 fragments that the TUN device gives are put together. Bytes are
-- numbers; shifts and masks are quotients and remainders. Each call reads the clock once.
pub mod Groups
pub mod Bytes
pub mod Views
pub mod Pieces
pub mod Insertion
pub mod Datagram
use ostp.Prelude.{
  ℕ, zero, suc, ◌+◌, ◌-◌, ◌*◌, ◌/◌, ◌%◌, ◌^◌, min, max, Bool, true, false, not, ◌&&◌, ◌||◌, Option,
  none, some, List, [], ◌∷◌, ◌++◌, length, take, drop, get_or, ltb, leb, ◌==◌, if◌then◌else◌,
  from_be_bytes, to_be_bytes, retain,
}
use ostp.Outcome.{Outcome, ok, err, panic, ◌>>=◌}
use ostp.Slices.{byte_at, slice}
use ostp.Dict.{Key, Dict, lookup, insert, remove, contains}

-- Nanoseconds.
abbrev pub reasm_timeout : ℕ
reasm_timeout = 3_000_000_000

abbrev pub max_groups : ℕ
max_groups = 4096

abbrev pub max_datagram : ℕ
max_datagram = 65_535

-- `Key`: source, destination, identification and protocol.
abbrev pub FragmentKey : Type 0
FragmentKey = ℕ × ℕ × ℕ × ℕ

pub record Group : Type 0 where
  pub parts : List (ℕ × List ℕ)
  pub header : Option (List ℕ)
  pub total_len : Option ℕ
  pub first_seen : ℕ

pub record Reassembler : Type 0 where
  pub groups : Dict FragmentKey Group
  pub last_sweep : ℕ

pub record Ipv4View : Type 0 where
  pub header : List ℕ
  pub payload : List ℕ
  pub src : ℕ
  pub dst : ℕ
  pub id : ℕ
  pub protocol : ℕ
  pub more_fragments : Bool
  pub frag_offset : ℕ

-- A big-endian word of the frame's bytes, each by its index.
unfoldable pub word : List ℕ → ℕ → ℕ → Outcome ℕ
unfolding slice
word frame start end = do bytes ← slice frame start end; ok (from_be_bytes bytes)

-- The fields, of a header of that length.
unfoldable pub view : List ℕ → ℕ → Outcome (Option Ipv4View)
unfolding word byte_at slice
view frame ihl = do
  declared ← word frame 2 4
  id ← word frame 4 6
  flags_frag ← word frame 6 8
  protocol ← byte_at frame 9
  src ← word frame 12 16
  dst ← word frame 16 20
  header ← slice frame 0 ihl
  payload ← slice frame ihl (max (min declared (length frame)) ihl)
  ok (
      some (record {
        header = header;
        payload = payload;
        src = src;
        dst = dst;
        id = id;
        protocol = protocol;
        more_fragments = flags_frag / 8192 % 2 == 1;
        frag_offset = flags_frag % 8192 * 8;
      }))

unfoldable pub parse : List ℕ → Outcome (Option Ipv4View)
unfolding view byte_at
parse frame = if ltb (length frame) 20 then ok none else do
  first ← byte_at frame 0
  if not (first / 16 == 4)
      then ok none
      else if ltb (first % 16 * 4) 20 || ltb (length frame) (first % 16 * 4)
      then ok none
      else view frame (first % 16 * 4)

-- The sum of the header's words, the last byte as the high one of a word.
unfoldable pub word_sum : List ℕ → ℕ
word_sum [] = 0
word_sum (a ∷ []) = a * 256
word_sum (a ∷ (b ∷ rest)) = a * 256 + b + word_sum rest

-- The carries are added while there are any; a u32 has them three times at most.
unfoldable pub fold_carries : ℕ → ℕ → ℕ
fold_carries zero sum = sum
fold_carries (suc fuel) sum =
    let rest = fold_carries fuel (sum % 65536 + sum / 65536) in
    if sum / 65536 == 0 then sum else rest

unfoldable pub ipv4_checksum : List ℕ → ℕ
unfolding word_sum fold_carries
ipv4_checksum header = 65535 - fold_carries 3 (word_sum header % 2 ^ 32) % 65536

-- `out[at..at + n].copy_from_slice(bytes)`
abbrev pub overwrite : ℕ → List ℕ → List ℕ → List ℕ
overwrite at bytes out = take at out ++ (bytes ++ drop (at + length bytes) out)

-- The packet but for its checksum.
abbrev pub unsummed : List ℕ → List ℕ → List ℕ
unsummed header0 payload = overwrite 10 (0 ∷ 0 ∷ []) (
    overwrite 6 (0 ∷ 0 ∷ []) (
      overwrite 2 (to_be_bytes 2 ((length header0 + length payload) % 65536)) (header0 ++ payload)))

abbrev pub summed : ℕ → List ℕ → List ℕ
summed cksum out = overwrite 10 (to_be_bytes 2 cksum) out

unfoldable pub build_reassembled : List ℕ → List ℕ → Outcome (List ℕ)
unfolding ipv4_checksum
build_reassembled header0 payload =
    let out = unsummed header0 payload in
    if ltb (length header0 + length payload) 12
    then panic
    else ok (summed (ipv4_checksum (take (length header0) out)) out)

-- `BTreeMap::insert`
unfoldable pub put_part : ℕ → List ℕ → List (ℕ × List ℕ) → List (ℕ × List ℕ)
put_part off part [] = (off, part) ∷ []
put_part off part ((o, p) ∷ rest) =
    if ltb off o
    then (off, part) ∷ ((o, p) ∷ rest)
    else if off == o
    then (o, part) ∷ rest
    else (o, p) ∷ put_part off part rest

-- How far the fragments reach from the start without a hole.
unfoldable pub walk : ℕ → List (ℕ × List ℕ) → Option ℕ
walk expected [] = some expected
walk expected ((off, part) ∷ rest) =
    if ltb expected off then none else walk (max expected (off + length part)) rest

-- `payload[off..end].copy_from_slice(&part[..end - off])`, which panics unless the two are equally long.
unfoldable pub copy_part : ℕ → ℕ → List ℕ → List ℕ → Outcome (List ℕ)
unfolding slice
copy_part off end part payload = do
  place ← slice payload off end
  bytes ← slice part 0 (end - off)
  if length place == length bytes then ok (overwrite off bytes payload) else panic

unfoldable pub copy_parts : ℕ → List (ℕ × List ℕ) → List ℕ → Outcome (List ℕ)
unfolding copy_part
copy_parts total [] payload = ok payload
copy_parts total ((off, part) ∷ rest) payload = do
  next ←
      if ltb off total
      then copy_part off (min (off + length part) total) part payload
      else ok payload
  copy_parts total rest next

unfoldable pub zeros : ℕ → List ℕ
zeros zero = []
zeros (suc n) = 0 ∷ zeros n

abbrev pub covered : ℕ → List ℕ → List (ℕ × List ℕ) → Option ℕ → Option (Outcome (List ℕ))
covered total header parts none = none
covered total header parts (some expected) =
    if ltb expected total
    then none
    else some (copy_parts total parts (zeros total) >>= build_reassembled header)

abbrev pub complete_known :
    List (ℕ × List ℕ) → Option ℕ → Option (List ℕ) → Option (Outcome (List ℕ))
complete_known parts none header = none
complete_known parts (some total) none = none
complete_known parts (some total) (some header) = covered total header parts (walk 0 parts)

-- The datagram of a group that is complete.
unfoldable pub complete : Group → Option (Outcome (List ℕ))
unfolding build_reassembled walk copy_parts zeros
complete g = complete_known g.parts g.total_len g.header
