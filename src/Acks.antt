-- ===== src/Acks.antt =====
-- Selective acknowledgements of ostp-core/src/protocol.rs: the ranges of nonces that
-- `build_ack_payload` reports, their bytes, and `parse_ack_ranges`.
pub mod Coverage
pub mod RoundTrip
use ostp.Prelude.{
  ℕ, zero, suc, ◌+◌, ◌-◌, ◌*◌, ◌%◌, Bool, Option, none, some, true, false, List, [], ◌∷◌, ◌++◌,
  length, take, drop, ltb, leb, ◌==◌, ◌&&◌, if◌then◌else◌, any, to_be_bytes, from_be_bytes,
}
use ostp.Outcome.{Outcome, ok, err, framing, ◌>>=◌}

abbrev pub max_ranges : ℕ
max_ranges = 8

-- The loop over the keys of the reorder buffer: runs of consecutive keys become ranges. The first
-- argument is `current_start` with `last`.
unfoldable pub coalesce : Option (ℕ × ℕ) → List ℕ → List (ℕ × ℕ)
coalesce none [] = []
coalesce none (k ∷ ks) = coalesce (some (k, k)) ks
coalesce (some (start, last)) [] = (start, last) ∷ []
coalesce (some (start, last)) (k ∷ ks) = elim (k == last + 1) [
  | true ↦ coalesce (some (start, k)) ks
  | false ↦ (start, last) ∷ coalesce (some (k, k)) ks
]

-- The cumulative range, if anything was received in order, and the ranges behind it.
unfoldable pub all_ranges : ℕ → List ℕ → List (ℕ × ℕ)
all_ranges expected keys =
    if ltb 0 expected then (0, expected - 1) ∷ coalesce none keys else coalesce none keys

-- More than eight ranges: the first one and the last seven.
unfoldable pub trim_ranges : List (ℕ × ℕ) → List (ℕ × ℕ)
trim_ranges [] = []
trim_ranges (r ∷ rs) =
    if ltb max_ranges (length (r ∷ rs))
    then r ∷ drop (length (r ∷ rs) - (max_ranges - 1)) (r ∷ rs)
    else r ∷ rs

unfoldable pub range_bytes : List (ℕ × ℕ) → List ℕ
range_bytes [] = []
range_bytes ((start, end) ∷ rs) = to_be_bytes 8 start ++ (to_be_bytes 8 end ++ range_bytes rs)

-- Nothing received is an empty payload; otherwise the count as a `u8` and the ranges.
unfoldable pub encode_ranges : List (ℕ × ℕ) → List ℕ
encode_ranges [] = []
encode_ranges (r ∷ rs) = length (r ∷ rs) % 256 ∷ range_bytes (r ∷ rs)

unfoldable pub build_ack_payload : ℕ → List ℕ → List ℕ
build_ack_payload expected keys = encode_ranges (trim_ranges (all_ranges expected keys))

-- The loop of `parse_ack_ranges` over the ranges announced.
unfoldable pub parse_ranges : ℕ → List ℕ → List (ℕ × ℕ)
parse_ranges zero bytes = []
parse_ranges (suc n) bytes =
    (from_be_bytes (take 8 bytes), from_be_bytes (take 8 (drop 8 bytes)))
    ∷ parse_ranges n (drop 16 bytes)

unfoldable pub parse_ack_ranges : List ℕ → Outcome (List (ℕ × ℕ))
parse_ack_ranges [] = ok []
parse_ack_ranges (count ∷ bytes) =
    if ltb (length (count ∷ bytes)) (1 + count * 16)
    then err framing
    else ok (parse_ranges count bytes)

abbrev pub in_range : ℕ → ℕ × ℕ → Bool
in_range nonce (start, end) = leb start nonce && leb nonce end

unfoldable pub nonce_in_ranges : ℕ → List (ℕ × ℕ) → Bool
nonce_in_ranges nonce ranges = any (in_range nonce) ranges
