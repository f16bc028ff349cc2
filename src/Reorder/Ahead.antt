-- ===== src/Reorder/Ahead.antt =====
-- The expected nonce of the receive sequence never falls, and no buffered nonce is below it, whatever
-- the nonces that arrive.
use ostp.Prelude.{
  ℕ, zero, suc, ◌+◌, ◌≤◌, subst, sym, ap, List, [], ◌∷◌, length, arith, inl, inr, Bool-cases, ltb,
  ◌==◌, u64_max,
}
use ostp.Reorder.{Drained, drain, drain_all, accept, skip_gap}
use ostp.Reorder.Sorted.{Above, Above-mono, insert-Above, remove_first, drain_stops, drain_goes}

module _ {ℓ} {A : Type ℓ} where
  pub record Ahead (e : ℕ) (d : Drained A) : Type 0 where
    pub onward : e ≤ d.expected
    pub above : Above (suc d.expected) d.buffer

  Ahead-later : (lo e : ℕ) (d : Drained A) → lo ≤ e → Ahead e d → Ahead lo d
  Ahead-later lo e d le s = record { onward = omega (arith, s.onward); above = s.above }

  pub drain-Ahead :
      (fuel e : ℕ) (m : List (ℕ × A)) → length m ≤ fuel → Above e m → Ahead e (drain fuel e m)
  unfolding drain
  drain-Ahead zero e [] h s = record { onward = omega arith; above = tt }
  drain-Ahead zero e (x ∷ m) h s = absurd (omega arith)
  drain-Ahead (suc fuel) e m h s = elim (remove_first e m s) [
    | inr (q, above) ↦
        subst (Ahead e) (sym (drain_stops fuel e m q))
          (record { onward = omega arith; above = above })
    | inl (a, m', shape, q, above) ↦
        let later = Above-mono {lo = suc e} {lo' = e + 1} m' (omega arith) above in
        let rest = drain-Ahead fuel (e + 1) m' (omega (arith, ap length shape)) later in
        subst (Ahead e) (sym (drain_goes fuel e m m' a q)) (elim (Bool-cases (e == u64_max)) [
          | inl last ↦ rw last (record { onward = omega arith; above = above })
          | inr more ↦ rw more (record { onward = omega (arith, rest.onward); above = rest.above })
        ])
  ]

  pub accept-Ahead :
      (most n : ℕ) (a : A) (e : ℕ) (m : List (ℕ × A))
      → e ≤ n
      → Above (suc e) m
      → Ahead e (accept most n a e m)
  unfolding accept drain_all
  accept-Ahead most n a e m le s = elim (Bool-cases (n == e)) [
    | inl q ↦ elim (Bool-cases (e == u64_max)) [
      | inl last ↦ rw (q, last) (record { onward = omega arith; above = s })
      | inr more ↦
          let later = Above-mono {lo = suc e} {lo' = e + 1} m (omega arith) s in
          let rest = drain-Ahead (length m) (e + 1) m (omega arith) later in
          rw (q, more) (record { onward = omega (arith, rest.onward); above = rest.above })
    ]
    | inr q ↦ rw q (record {
      onward = omega arith;
      above = elim (Bool-cases (ltb (length m) most)) [
        | inl room ↦ rw room (insert-Above (suc e) n a m (ground arith) s)
        | inr full ↦ rw full s
      ];
    })
  ]

  pub skip_gap-Ahead : (e : ℕ) (m : List (ℕ × A)) → Above (suc e) m → Ahead e (skip_gap e m)
  unfolding skip_gap drain_all
  skip_gap-Ahead e [] s = record { onward = omega arith; above = s }
  skip_gap-Ahead e ((k, b) ∷ m) s =
      Ahead-later e k _ (omega (arith, s.0))
        (drain-Ahead (suc (length m)) k ((k, b) ∷ m) (omega arith) (omega arith, s.1))
