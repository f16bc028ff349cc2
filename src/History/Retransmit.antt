-- ===== src/History/Retransmit.antt =====
-- Retransmission in `handle_tick` of ostp-core/src/protocol.rs.
use ostp.Prelude.{
  ℕ, zero, suc, ◌+◌, ◌-◌, min, ◌≡◌, refl, sym, ◌∙◌, ap, false, true, false, ◌&&◌, ◌==◌, List, [],
  ◌∷◌, map, take, retain, ◌⊎◌, inl, inr, Bool-cases, arith,
}
use ostp.History.{SentFrame, is_due, retransmit}

-- What is kept of the frames, one for one in their order: a frame as it was, or a due frame that is
-- marked as sent now, once more. The bytes sent are those of the frames so marked, in their order.
abbrev pub Resent : ℕ → ℕ → List SentFrame → List SentFrame → List (List ℕ) → Type 0
Resent now base_rto_ms [] kept sent = (kept ≡ []) × (sent ≡ [])
Resent now base_rto_ms (f ∷ fs) [] sent = ⊥
Resent now base_rto_ms (f ∷ fs) (g ∷ kept) sent =
    ((g ≡ f) × Resent now base_rto_ms fs kept sent)
    ⊎ ((g ≡ record f { last_sent = now; retries = min (f.retries + 1) 255 })
        × ((f.is_retransmittable ≡ true) × (is_due now base_rto_ms f ≡ true))
        × ((rest : List (List ℕ)) × (sent ≡ f.bytes ∷ rest) × Resent now base_rto_ms fs kept rest))

abbrev pub due_frames : ℕ → ℕ → List SentFrame → List SentFrame
due_frames now base_rto_ms = retain (λ f. f.is_retransmittable && is_due now base_rto_ms f)

nothing_sent : (now base_rto_ms : ℕ) (fs : List SentFrame) → Resent now base_rto_ms fs fs []
nothing_sent now base_rto_ms [] = (refl, refl)
nothing_sent now base_rto_ms (f ∷ fs) = inl (refl, nothing_sent now base_rto_ms fs)

take_nothing : {A : Type 0} (n : ℕ) → take {A = A} n [] ≡ []
take_nothing zero = refl
take_nothing (suc n) = refl

take_one :
    {A : Type 0} (n : ℕ) (x : A) (xs : List A)
    → (n == 0) ≡ false
    → take n (x ∷ xs) ≡ x ∷ take (n - 1) xs
take_one zero x xs h = absurd cc
take_one (suc n) x xs h = let less : suc n - 1 ≡ n = omega arith in rw less refl

-- On a tick exactly the first due frames go on the wire again, as many as the budget allows and in
-- their order. Each of them is charged with one retry, up to 255, and the time; every other frame
-- stays as it was, and all keep their places.
pub retransmit_charges :
    (now base_rto_ms budget : ℕ) (fs : List SentFrame)
    → let s = retransmit now base_rto_ms budget fs in
      (s.sent ≡ take budget (map (λ f. f.bytes) (due_frames now base_rto_ms fs)))
      × Resent now base_rto_ms fs s.frames s.sent
unfolding retransmit retain
retransmit_charges now base_rto_ms budget [] = (sym (take_nothing budget), (refl, refl))
retransmit_charges now base_rto_ms budget (f ∷ fs) =
    let same = retransmit_charges now base_rto_ms budget fs in
    let less = retransmit_charges now base_rto_ms (budget - 1) fs in
    elim (Bool-cases f.is_retransmittable) [
      | inr q ↦ rw (q, retain) (same.0, inl (refl, same.1))
      | inl q ↦ elim (Bool-cases (budget == 0)) [
        | inl z ↦
            let nothing : budget ≡ 0 = ground (arith, z) in
            simp (q, nothing) (refl, inl (refl, nothing_sent now base_rto_ms fs))
        | inr z ↦ elim (Bool-cases (is_due now base_rto_ms f)) [
          | inr d ↦ simp (z, d, q, retain) (same.0, inl (refl, same.1))
          | inl d ↦
              simp (z, d, q, retain)
                (
                  ap (◌∷◌ f.bytes) less.0 ∙ sym (take_one budget f.bytes _ z),
                  inr (refl, (refl, refl), (_, refl, less.1)),
                )
        ]
      ]
    ]
