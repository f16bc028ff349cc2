-- ===== src/Reorder.antt =====
-- The receive sequence of ostp-core/src/protocol.rs: `expected_recv_nonce` and `reorder_buffer`, a
-- `BTreeMap` kept here as a list in the order of its keys. Entries come out with their nonces.
pub mod Sorted
pub mod Ahead
pub mod Rising
pub mod Order
pub mod Reliable
use ostp.Prelude.{
  ℕ, zero, suc, ◌+◌, ◌-◌, Bool, true, false, Option, none, some, List, [], ◌∷◌, ltb, ◌==◌,
  if◌then◌else◌, length, u64_max,
}

module _ {ℓ} {A : Type ℓ} where
  -- `BTreeMap::insert`
  unfoldable pub insert : ℕ → A → List (ℕ × A) → List (ℕ × A)
  insert n a [] = (n, a) ∷ []
  insert n a ((k, b) ∷ m) =
      if n == k then (n, a) ∷ m else if ltb n k then (n, a) ∷ (k, b) ∷ m else (k, b) ∷ insert n a m

  -- `BTreeMap::remove`
  unfoldable pub remove : ℕ → List (ℕ × A) → Option (A × List (ℕ × A))
  remove n [] = none
  remove n ((k, b) ∷ m) =
      let later = remove n m in
      if n == k
      then some (b, m)
      else elim later [ none ↦ none | some (a, m') ↦ some (a, (k, b) ∷ m') ]

  -- `keys().next()`
  unfoldable pub first_key : List (ℕ × A) → Option ℕ
  first_key [] = none
  first_key ((k, b) ∷ m) = some k

pub record Drained {ℓ} (A : Type ℓ) : Type ℓ where
  pub delivered : List (ℕ × A)
  pub expected : ℕ
  pub buffer : List (ℕ × A)
  -- the next nonce would not fit a u64
  pub exhausted : Bool

module _ {ℓ} {A : Type ℓ} where
  abbrev pub deliver_first : ℕ → A → Drained A → Drained A
  deliver_first n a d = record d { delivered = (n, a) ∷ d.delivered }

  -- `while let Some(buffered) = reorder_buffer.remove(&expected)`; a round removes an entry, so the
  -- number of entries is enough fuel.
  unfoldable pub drain : ℕ → ℕ → List (ℕ × A) → Drained A
  drain zero e m = record { delivered = []; expected = e; buffer = m; exhausted = false }
  drain (suc fuel) e m = elim (remove e m) [
    | none ↦ record { delivered = []; expected = e; buffer = m; exhausted = false }
    | some (a, m') ↦
        if e == u64_max
        then record { delivered = (e, a) ∷ []; expected = e; buffer = m'; exhausted = true }
        else deliver_first e a (drain fuel (e + 1) m')
  ]

  unfoldable pub drain_all : ℕ → List (ℕ × A) → Drained A
  unfolding drain
  drain_all e m = drain (length m) e m

  -- A frame that is accepted: delivered with all that follows it, or buffered if there is room.
  unfoldable pub accept : ℕ → ℕ → A → ℕ → List (ℕ × A) → Drained A
  unfolding drain_all
  accept max_reorder_buffer n a e m =
      if n == e
      then if e == u64_max
        then record { delivered = (n, a) ∷ []; expected = e; buffer = m; exhausted = true }
        else deliver_first n a (drain_all (e + 1) m)
      else record {
        delivered = [];
        expected = e;
        buffer = if ltb (length m) max_reorder_buffer then insert n a m else m;
        exhausted = false;
      }

  -- `recover_stalled_gap` once its time has come: on to the least buffered nonce.
  unfoldable pub skip_gap : ℕ → List (ℕ × A) → Drained A
  unfolding drain_all first_key
  skip_gap e m = elim (first_key m) [
    | none ↦ record { delivered = []; expected = e; buffer = m; exhausted = false }
    | some resume_at ↦ drain_all resume_at m
  ]
