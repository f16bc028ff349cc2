-- ===== src/History/Acked.antt =====
-- What an acknowledgement takes out of `sent_history` in ostp-core/src/protocol.rs, and the round-trip
-- sample it gives (`drop_acked_frames`).
use ostp.Prelude.{
  ◌≤◌, leb, ◌⊎◌, ℕ, ◌+◌, ◌≡◌, refl, true, false, ◌&&◌, ◌==◌, Option, List, [], ◌∷◌, length, retain,
  All, Bool-cases, inl, inr, arith,
}
use ostp.Acks.{nonce_in_ranges}
use ostp.History.{SentFrame, acked_bytes, min_rtt_of, retain_unacked}

-- The nonce lies in one of the ranges, ends included.
abbrev pub Covered : ℕ → List (ℕ × ℕ) → Type 0
Covered n [] = ⊥
Covered n (r ∷ rs) = ((r.0 ≤ n) × (n ≤ r.1)) ⊎ Covered n rs

-- Each frame goes, with its bytes, if a range covers it, and stays in its place if none does.
abbrev pub Splits : List (ℕ × ℕ) → List SentFrame → List SentFrame → ℕ → Type 0
Splits ranges [] kept acked = (kept ≡ []) × (acked ≡ 0)
Splits ranges (f ∷ fs) kept acked =
    (Covered f.nonce ranges
      × ((rest : ℕ) × (acked ≡ length f.bytes + rest) × Splits ranges fs kept rest))
    ⊎ ((Covered f.nonce ranges → ⊥)
        × ((rest : List SentFrame) × (kept ≡ f ∷ rest) × Splits ranges fs rest acked))

inside_if : (n : ℕ) (ranges : List (ℕ × ℕ)) → nonce_in_ranges n ranges ≡ true → Covered n ranges
unfolding nonce_in_ranges
inside_if n [] h = absurd cc
inside_if n (r ∷ rs) h = elim (Bool-cases (leb r.0 n && leb n r.1)) [
  | inl q ↦ inl (ground (arith, q))
  | inr q ↦ inr (inside_if n rs (ground (arith, h, q)))
]

outside_if :
    (n : ℕ) (ranges : List (ℕ × ℕ)) → nonce_in_ranges n ranges ≡ false → Covered n ranges → ⊥
unfolding nonce_in_ranges
outside_if n [] h c = absurd c
outside_if n (r ∷ rs) h (inl c) = absurd (ground (arith, h, c))
outside_if n (r ∷ rs) h (inr c) = outside_if n rs (ground (arith, h)) c

-- An acknowledgement takes out of the history exactly the frames whose nonces its ranges cover, ends
-- included; the others stay in their order. The bytes reported to the congestion controller are
-- those of the frames that are gone.
pub acknowledged_bytes_leave :
    (ranges : List (ℕ × ℕ)) (fs : List SentFrame)
    → Splits ranges fs (retain_unacked ranges fs) (acked_bytes ranges fs)
unfolding retain_unacked acked_bytes retain
acknowledged_bytes_leave ranges [] = (refl, refl)
acknowledged_bytes_leave ranges (f ∷ fs) = elim (Bool-cases (nonce_in_ranges f.nonce ranges)) [
  | inl q ↦
      rw (q, retain)
        (inl (inside_if f.nonce ranges q, (_, refl, acknowledged_bytes_leave ranges fs)))
  | inr q ↦
      let none_gone : 0 + acked_bytes ranges fs ≡ acked_bytes ranges fs = omega arith in
      rw (q, retain, none_gone)
        (inr (outside_if f.nonce ranges q, (_, refl, acknowledged_bytes_leave ranges fs)))
]

-- A frame that gives no sample: outside the ranges, or sent again.
abbrev pub IsAmbiguous : List (ℕ × ℕ) → SentFrame → Type 0
IsAmbiguous ranges f = (nonce_in_ranges f.nonce ranges && f.retries == 0) ≡ false

-- Karn's rule: frames that were sent again, or are not acknowledged, never change the round-trip
-- sample, so it comes from frames sent once only; with no such frame there is no sample.
pub karn :
    (now : ℕ) (ranges : List (ℕ × ℕ)) (least : Option ℕ) (fs : List SentFrame)
    → All (IsAmbiguous ranges) fs
    → min_rtt_of now ranges least fs ≡ least
unfolding min_rtt_of
karn now ranges least [] h = refl
karn now ranges least (f ∷ fs) h = rw (h.0, min_rtt_of) (karn now ranges least fs h.1)
