-- ===== src/History.antt =====
-- `sent_history` of ostp-core/src/protocol.rs: the frames sent and not yet acknowledged, oldest
-- first, and the loops of the protocol machine over them.
pub mod Retransmit
pub mod Acked
pub mod Rising
use ostp.Prelude.{
  ℕ, zero, suc, ◌+◌, ◌-◌, ◌*◌, ◌^◌, min, max, Bool, true, false, not, ◌&&◌, ◌||◌, Option, none,
  some, List, [], ◌∷◌, ◌++◌, length, drop, retain, ltb, leb, ◌==◌, if◌then◌else◌, sat_mul64, add64,
}
use ostp.Acks.{nonce_in_ranges}

pub record SentFrame : Type 0 where
  pub nonce : ℕ
  pub bytes : List ℕ
  pub last_sent : ℕ
  pub retries : ℕ
  pub is_retransmittable : Bool

-- Nanoseconds.
abbrev pub max_effective_rto : ℕ
max_effective_rto = 8_000_000_000

-- `u8::saturating_add`
abbrev pub sat_add8 : ℕ → ℕ → ℕ
sat_add8 a b = min (a + b) 255

unfoldable pub in_flight_count : List SentFrame → ℕ
in_flight_count [] = 0
in_flight_count (f ∷ fs) = (if f.is_retransmittable then 1 else 0) + in_flight_count fs

unfoldable pub total_retries : List SentFrame → ℕ
total_retries [] = 0
total_retries (f ∷ fs) = (if f.is_retransmittable then f.retries else 0) + total_retries fs

-- `push_back`, and `pop_front` while there are more than `max_sent_history`.
unfoldable pub push_capped : ℕ → SentFrame → List SentFrame → List SentFrame
push_capped max_sent_history f fs =
    drop (length (fs ++ (f ∷ [])) - max_sent_history) (fs ++ (f ∷ []))

-- A frame that goes on the wire again.
abbrev pub resend : ℕ → SentFrame → SentFrame
resend now f = record f { last_sent = now; retries = sat_add8 f.retries 1 }

-- From what the search through the newer frames found, to this frame and those behind it.
abbrev pub or_this :
    ℕ
    → ℕ
    → SentFrame
    → List SentFrame
    → Option (List ℕ × List SentFrame)
    → Option (List ℕ × List SentFrame)
or_this now nonce f fs (some (bytes, fs')) = some (bytes, f ∷ fs')
or_this now nonce f fs none = if f.nonce == nonce then some (f.bytes, resend now f ∷ fs) else none

-- `lookup_sent_frame`: the newest frame with that nonce, marked as sent again.
unfoldable pub lookup_sent_frame : ℕ → ℕ → List SentFrame → Option (List ℕ × List SentFrame)
lookup_sent_frame now nonce [] = none
lookup_sent_frame now nonce (f ∷ fs) = or_this now nonce f fs (lookup_sent_frame now nonce fs)

-- The loop of `on_path_change`.
unfoldable pub mark_due : ℕ → List SentFrame → List SentFrame
mark_due due [] = []
mark_due due (f ∷ fs) =
    (if f.is_retransmittable then record f { last_sent = due; retries = 1 } else f)
    ∷ mark_due due fs

-- The first loop of `drop_acked_frames`: the bytes acknowledged, and the least round trip of the
-- acknowledged frames that were never sent again.
unfoldable pub acked_bytes : List (ℕ × ℕ) → List SentFrame → ℕ
acked_bytes ranges [] = 0
acked_bytes ranges (f ∷ fs) =
    (if nonce_in_ranges f.nonce ranges then length f.bytes else 0) + acked_bytes ranges fs

abbrev map_or_min : ℕ → Option ℕ → Option ℕ
map_or_min rtt none = some rtt
map_or_min rtt (some m) = some (min m rtt)

unfoldable pub min_rtt_of : ℕ → List (ℕ × ℕ) → Option ℕ → List SentFrame → Option ℕ
min_rtt_of now ranges least [] = least
min_rtt_of now ranges least (f ∷ fs) =
    min_rtt_of now ranges
      (if nonce_in_ranges f.nonce ranges && f.retries == 0
        then map_or_min (now - f.last_sent) least
        else least)
      fs

unfoldable pub retain_unacked : List (ℕ × ℕ) → List SentFrame → List SentFrame
retain_unacked ranges = retain (λ f. not (nonce_in_ranges f.nonce ranges))

-- The eviction of `handle_tick`.
unfoldable pub evict_zombies : ℕ → List SentFrame → List SentFrame
evict_zombies grace = retain (λ f. not f.is_retransmittable || leb f.retries grace)

-- Exponential backoff from the base timeout in milliseconds, at most 64-fold and eight seconds.
unfoldable pub effective_rto : ℕ → ℕ → ℕ
effective_rto base_rto_ms retries =
    min (sat_mul64 base_rto_ms (2 ^ min retries 6) * 1_000_000) max_effective_rto

-- What is due after a time on the clock.
unfoldable pub is_due : ℕ → ℕ → SentFrame → Bool
unfolding effective_rto
is_due now base_rto_ms f = leb (effective_rto base_rto_ms f.retries) (now - f.last_sent)

pub record Scan : Type 0 where
  pub frames : List SentFrame
  pub sent : List (List ℕ)

-- The retransmission loop of `handle_tick`, with the budget that is left.
unfoldable pub retransmit : ℕ → ℕ → ℕ → List SentFrame → Scan
retransmit now base_rto_ms budget [] = record { frames = []; sent = [] }
retransmit now base_rto_ms budget (f ∷ fs) =
    let same = retransmit now base_rto_ms budget fs in
    let less = retransmit now base_rto_ms (budget - 1) fs in
    if not f.is_retransmittable
    then record { frames = f ∷ same.frames; sent = same.sent }
    else if budget == 0
    then record { frames = f ∷ fs; sent = [] }
    else if is_due now base_rto_ms f
    then record { frames = resend now f ∷ less.frames; sent = f.bytes ∷ less.sent }
    else record { frames = f ∷ same.frames; sent = same.sent }
