-- ===== src/Framing/Padding.antt =====
-- ostp-core/src/framing/padding.rs: how much padding a frame gets.
use ostp.Prelude.{
  inl, inr, Option-cases, ℕ, ◌+◌, ◌-◌, ◌*◌, ◌/◌, ◌≤◌, min, max, ◌≡◌, ◌<◌, ◌↔◌, Option, none, some,
  List, arith, ltb, ◌==◌, if◌then◌else◌, length,
}
use ostp.External.{Rng}

pub data TrafficProfile : Type 0 where
  json_rpc https_burst video_stream : TrafficProfile

abbrev div_ceil : ℕ → ℕ → ℕ
div_ceil v k = (v + (k - 1)) / k

unfoldable pub align_up : ℕ → ℕ → ℕ
align_up v align = div_ceil v align * align

unfoldable pub target_size : TrafficProfile → ℕ → ℕ
unfolding align_up
target_size TrafficProfile.json_rpc current = min (align_up (max current 220) 64) 1280
target_size TrafficProfile.https_burst current = min (align_up (max current 1200) 128) 1280
target_size TrafficProfile.video_stream current = min (align_up (max current 900) 188) 1280

pub data PaddingStrategy : Type 0 where
  fixed : ℕ → PaddingStrategy
  adaptive : PaddingStrategy
  profile : TrafficProfile → PaddingStrategy

pub record AdaptivePadder : Type 0 where
  pub mtu_hint : ℕ
  pub max_pad : ℕ
  pub strategy : PaddingStrategy

-- The `Adaptive` arm, after the call of `clamp`.
adaptive_pad : Rng → ℕ → ℕ → ℕ → ℕ → ℕ
adaptive_pad rng draw max_pad payload_len clamped =
    let target : ℕ = if ltb clamped payload_len then payload_len else clamped in
    let base_pad : ℕ = target - payload_len in
    let jitter_cap : ℕ = max_pad - base_pad in
    let jitter : ℕ = if jitter_cap == 0 then 0 else rng.gen_range draw 0 (min jitter_cap 256) in
    min (base_pad + jitter) max_pad

-- `none` is the panic of `usize::clamp` whose bounds are out of order.
clamp_or_panic : ℕ → ℕ → ℕ → Option ℕ
clamp_or_panic lo hi x =
    if ltb hi lo then none else some (if ltb x lo then lo else if ltb hi x then hi else x)

unfoldable pub raw_pad : Rng → ℕ → PaddingStrategy → ℕ → ℕ → ℕ → Option ℕ
unfolding target_size adaptive_pad clamp_or_panic
raw_pad rng draw (fixed target) mtu_hint max_pad payload_len = some (target - payload_len)
raw_pad rng draw adaptive mtu_hint max_pad payload_len =
    elim (clamp_or_panic 64 mtu_hint (div_ceil payload_len 64 * 64)) [
      | none ↦ none
      | some clamped ↦ some (adaptive_pad rng draw max_pad payload_len clamped)
    ]
raw_pad rng draw (profile prof) mtu_hint max_pad payload_len =
    some (min (target_size prof payload_len - payload_len) max_pad)

abbrev overhead : ℕ
overhead = 38

unfoldable pub padding_for_len : Rng → ℕ → AdaptivePadder → ℕ → Option ℕ
padding_for_len rng draw p payload_len =
    elim (raw_pad rng draw p.strategy p.mtu_hint p.max_pad payload_len) [
      | none ↦ none
      | some raw ↦ some (min raw (p.mtu_hint - payload_len - overhead))
    ]

unfoldable pub build_padding : Rng → ℕ → AdaptivePadder → ℕ → Option (List ℕ)
build_padding rng draw p payload_len = elim (padding_for_len rng draw p payload_len) [
  | none ↦ none
  | some len ↦ some (rng.fill (draw + 1) len)
]

-- The most padding that a strategy asks for: the fixed one fills up to its target.
abbrev pub pad_limit : PaddingStrategy → ℕ → ℕ → ℕ
pad_limit (fixed target) max_pad payload_len = target - payload_len
pad_limit adaptive max_pad payload_len = max_pad
pad_limit (profile prof) max_pad payload_len = max_pad

raw_pad-le :
    (rng : Rng) (draw : ℕ) (s : PaddingStrategy) (mtu max_pad payload_len n : ℕ)
    → raw_pad rng draw s mtu max_pad payload_len ≡ some n
    → n ≤ pad_limit s max_pad payload_len
unfolding raw_pad
raw_pad-le rng draw (fixed target) mtu max_pad payload_len n h = ground arith
raw_pad-le rng draw adaptive mtu max_pad payload_len n h = ground arith
raw_pad-le rng draw (profile prof) mtu max_pad payload_len n h = ground arith

padding_for_len-le :
    (rng : Rng) (draw : ℕ) (p : AdaptivePadder) (payload_len n : ℕ)
    → padding_for_len rng draw p payload_len ≡ some n
    → (n ≤ p.mtu_hint - payload_len - 38) × (n ≤ pad_limit p.strategy p.max_pad payload_len)
unfolding padding_for_len
padding_for_len-le rng draw p payload_len n h =
    elim (Option-cases (raw_pad rng draw p.strategy p.mtu_hint p.max_pad payload_len)) [
      | inl e ↦ cc
      | inr (raw, e) ↦
          let limit = raw_pad-le rng draw p.strategy p.mtu_hint p.max_pad payload_len raw e in
          (ground arith, ground arith)
    ]

-- The padding of a frame always leaves room for the payload and 38 bytes of overhead in the packet
-- size (it is nothing where these already exceed it), and it is at most what the strategy asks for:
-- `max_pad`, or the distance to the target of the fixed strategy.
pub build_padding_fits :
    (rng : Rng) (draw : ℕ) (p : AdaptivePadder) (payload_len : ℕ) (padding : List ℕ)
    → build_padding rng draw p payload_len ≡ some padding
    → (length padding ≤ p.mtu_hint - payload_len - 38)
      × (length padding ≤ pad_limit p.strategy p.max_pad payload_len)
unfolding build_padding
build_padding_fits rng draw p payload_len padding h =
    elim (Option-cases (padding_for_len rng draw p payload_len)) [
      | inl e ↦ cc
      | inr (n, e) ↦
          let filled = rng.length-fill (draw + 1) n in
          let limits = padding_for_len-le rng draw p payload_len n e in (ground arith, ground arith)
    ]

raw_pad-none :
    (rng : Rng) (draw : ℕ) (s : PaddingStrategy) (mtu max_pad payload_len : ℕ)
    → (raw_pad rng draw s mtu max_pad payload_len ≡ none) ↔ ((s ≡ adaptive) × (mtu < 64))
unfolding raw_pad
raw_pad-none rng draw (fixed target) mtu max_pad payload_len = ground arith
raw_pad-none rng draw adaptive mtu max_pad payload_len = ground arith
raw_pad-none rng draw (profile prof) mtu max_pad payload_len = ground arith

-- The padder panics exactly in the adaptive strategy under a packet size below 64.
pub build_padding_panics :
    (rng : Rng) (draw : ℕ) (p : AdaptivePadder) (payload_len : ℕ)
    → (build_padding rng draw p payload_len ≡ none) ↔ ((p.strategy ≡ adaptive) × (p.mtu_hint < 64))
unfolding build_padding padding_for_len
build_padding_panics rng draw p payload_len =
    ground (arith, raw_pad-none rng draw p.strategy p.mtu_hint p.max_pad payload_len)
