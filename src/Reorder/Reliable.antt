-- ===== src/Reorder/Reliable.antt =====
-- With no gap recovery the receive sequence of ostp-core/src/protocol.rs leaves no nonce out; with
-- any arrivals it makes nothing up, and its buffer keeps to its limit.
use ostp.Prelude.{
  ℕ, suc, ◌+◌, ◌≤◌, ◌<◌, ◌≡◌, sym, ap, subst, false, List, [], ◌∷◌, ◌++◌, length, arith, inl, inr,
  Bool-cases, ltb→lt, ltb, ◌==◌, u64_max, ◌||◌, add64, All, All-left, All-right, All-append,
  length-append,
}
use ostp.Reorder.{Drained, drain_all, accept, skip_gap}
use ostp.Reorder.Sorted.{length-insert-le, Consecutive, Drains, drain-Drains}
use ostp.Reorder.Order.{
  Arrival, frame, gap_timeout, Window, receive, receive_all, Fits, receive-Advances,
}
use ostp.Reorder.Rising.{IsOrdered, insert-All, hit-Drains, Drains-count}

module _ {ℓ} {A : Type ℓ} where
  abbrev pub IsFrame : Arrival A → Type 0
  IsFrame (frame n a) = Unit
  IsFrame gap_timeout = ⊥

  Consecutive-append :
      (e : ℕ) (xs ys : List (ℕ × A))
      → Consecutive e xs
      → Consecutive (e + length xs) ys
      → Consecutive e (xs ++ ys)
  Consecutive-append e [] ys p q =
      let z : e + 0 ≡ e = omega arith in subst (λ t. Consecutive t ys) z q
  Consecutive-append e ((k, a) ∷ xs) ys p q =
      let z : e + suc (length xs) ≡ suc e + length xs = omega arith in
      (p.0, Consecutive-append (suc e) xs ys p.1 (subst (λ t. Consecutive t ys) z q))

  -- No hole: the deliveries count up from `e` to below the new expected nonce.
  record Contiguous (e : ℕ) (d : Drained A) : Type 0 where
    run : Consecutive e d.delivered
    count : e + length d.delivered ≡ d.expected

  receive-Contiguous :
      (w : Window) (n : ℕ) (a : A) (e : ℕ) (m : List (ℕ × A))
      → n < u64_max
      → IsOrdered e m
      → Contiguous e (receive w (frame n a) e m)
  unfolding receive accept
  receive-Contiguous w n a e m fits v =
      elim (Bool-cases (ltb n e || ltb (add64 e w.max_reorder) n)) [
        | inl q ↦ rw q (record { run = tt; count = omega arith })
        | inr q ↦ rw q (elim (Bool-cases (n == e)) [
          | inr other ↦ rw other (record { run = tt; count = omega arith })
          | inl hit ↦
              let same : n ≡ e = ground arith in
              let more : (e == u64_max) ≡ false = ground arith in
              let d = hit-Drains e a m (omega arith) v.above in
              let (count, room) = Drains-count e ((e, a) ∷ m) _ v.small (omega arith, v.below) d in
              rw (hit, more, same) (record { run = d.run; count = count })
        ])
      ]

  -- With no recovery of a gap among the arrivals, the deliveries have the nonces `e`, `e + 1` and so
  -- on up to below the last expected one: nothing is left out.
  pub receive_all_contiguous :
      (w : Window) (xs : List (Arrival A)) (e : ℕ) (m : List (ℕ × A))
      → All Fits xs
      → All IsFrame xs
      → IsOrdered e m
      → let r = receive_all w xs e m in
        Consecutive e r.delivered × (e + length r.delivered ≡ r.expected)
  unfolding receive_all
  receive_all_contiguous w [] e m fits frames v = (tt, omega arith)
  receive_all_contiguous w (gap_timeout ∷ xs) e m fits frames v = absurd frames.0
  receive_all_contiguous w (frame n a ∷ xs) e m fits frames v =
      let d = receive w (frame n a) e m in
      let first = receive-Contiguous w n a e m fits.0 v in
      let ordered = (receive-Advances w (frame n a) e m fits.0 v).ordered in
      let (run, count) = receive_all_contiguous w xs d.expected d.buffer fits.1 frames.1 ordered in
      let r = receive_all w xs d.expected d.buffer in
      (
        Consecutive-append e d.delivered r.delivered first.run
            (subst (λ t. Consecutive t r.delivered) (sym first.count) run),
        omega (arith, length-append d.delivered r.delivered, first.count, count),
      )

  -- Frames carry a property over from the arrivals and the buffer to all that is delivered or kept.
  abbrev pub Carries {κ} : (ℕ × A → Type κ) → Arrival A → Type κ
  Carries P (frame n a) = P (n, a)
  Carries P gap_timeout = Unit

  pub record Kept {κ} (P : ℕ × A → Type κ) (most : ℕ) (d : Drained A) : Type κ where
    pub out : All P d.delivered
    pub held : All P d.buffer
    pub fits : length d.buffer ≤ most

  Drains-Kept {κ} :
      (P : ℕ × A → Type κ) (most e : ℕ) (m : List (ℕ × A)) (d : Drained A)
      → Drains e m d
      → All P m
      → length m ≤ most + length d.delivered
      → Kept P most d
  Drains-Kept P most e m d s h room =
      let all = subst (All P) s.whole h in
      record {
        out = All-left P d.delivered d.buffer all;
        held = All-right P d.delivered d.buffer all;
        fits = omega (arith, ap length s.whole, length-append d.delivered d.buffer);
      }

  receive-Kept {κ} :
      (P : ℕ × A → Type κ) (w : Window) (x : Arrival A) (e : ℕ) (m : List (ℕ × A))
      → Fits x
      → Carries P x
      → IsOrdered e m
      → All P m
      → length m ≤ w.max_reorder_buffer
      → Kept P w.max_reorder_buffer (receive w x e m)
  unfolding receive accept skip_gap
  receive-Kept P w (frame n a) e m fits p v h room =
      elim (Bool-cases (ltb n e || ltb (add64 e w.max_reorder) n)) [
        | inl q ↦ rw q (record { out = tt; held = h; fits = room })
        | inr q ↦ rw q (elim (Bool-cases (n == e)) [
          | inl hit ↦
              let same : n ≡ e = ground arith in
              let more : (e == u64_max) ≡ false = ground arith in
              let p' = subst (λ t. P (t, a)) same p in
              rw (hit, more, same)
                (Drains-Kept P w.max_reorder_buffer e ((e, a) ∷ m) _
                  (hit-Drains e a m (omega arith) v.above) (p', h) (omega arith))
          | inr other ↦ rw other (elim (Bool-cases (ltb (length m) w.max_reorder_buffer)) [
            | inl free ↦ rw free (record {
              out = tt;
              held = insert-All P n a m p h;
              fits = omega (arith, length-insert-le n a m, ltb→lt _ _ free);
            })
            | inr full ↦ rw full (record { out = tt; held = h; fits = room })
          ])
        ])
      ]
  receive-Kept P w gap_timeout e [] fits p v h room = record { out = tt; held = tt; fits = room }
  receive-Kept P w gap_timeout e ((k, b) ∷ m) fits p v h room =
      Drains-Kept P w.max_reorder_buffer k ((k, b) ∷ m) _
        (unfold drain_all in
          drain-Drains (suc (length m)) k ((k, b) ∷ m) (omega arith) (omega (arith, v.below.0))
            (omega arith, v.above.1))
        h (omega arith)

  -- Nothing is made up, and memory is bounded: any property of the nonces and contents of the
  -- arrived frames (that it was sent by the peer, say) holds of all that is delivered and of all
  -- that is kept, and no more than `max_reorder_buffer` frames are kept.
  pub receive_all-Kept {κ} :
      (P : ℕ × A → Type κ) (w : Window) (xs : List (Arrival A)) (e : ℕ) (m : List (ℕ × A))
      → All Fits xs
      → All (Carries P) xs
      → IsOrdered e m
      → All P m
      → length m ≤ w.max_reorder_buffer
      → Kept P w.max_reorder_buffer (receive_all w xs e m)
  unfolding receive_all
  receive_all-Kept P w [] e m fits ps v h room = record { out = tt; held = h; fits = room }
  receive_all-Kept P w (x ∷ xs) e m fits ps v h room =
      let d = receive w x e m in
      let first = receive-Kept P w x e m fits.0 ps.0 v h room in
      let ordered = (receive-Advances w x e m fits.0 v).ordered in
      let rest =
        receive_all-Kept P w xs d.expected d.buffer fits.1 ps.1 ordered first.held first.fits in
      record {
        out =
            All-append P d.delivered (receive_all w xs d.expected d.buffer).delivered first.out
              rest.out;
        held = rest.held;
        fits = rest.fits;
      }
