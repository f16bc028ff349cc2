-- ===== src/Reorder/Order.antt =====
-- Any run of the receive sequence of ostp-core/src/protocol.rs: arrivals in any order, with
-- duplicates, losses and gap recoveries.
use ostp.Prelude.{
  ℕ, ◌<◌, false, List, [], ◌∷◌, ◌++◌, arith, inl, inr, Bool-cases, ltb, if◌then◌else◌, u64_max,
  ◌||◌, add64, All,
}
use ostp.Reorder.{Drained, accept, skip_gap}
use ostp.Reorder.Rising.{
  Rises, Rises-append, IsOrdered, Advances, accept-Advances, skip_gap-Advances,
}

-- What reaches the sequence: an authenticated frame with its nonce, or the recovery of a gap.
pub data Arrival {ℓ} (A : Type ℓ) : Type ℓ where
  frame : ℕ → A → Arrival A
  gap_timeout : Arrival A

pub record Window : Type 0 where
  pub max_reorder : ℕ
  pub max_reorder_buffer : ℕ

module _ {ℓ} {A : Type ℓ} where
  abbrev pub stay : ℕ → List (ℕ × A) → Drained A
  stay e m = record { delivered = []; expected = e; buffer = m; exhausted = false }

  -- A frame below the expected nonce or beyond the window is not taken.
  unfoldable pub receive : Window → Arrival A → ℕ → List (ℕ × A) → Drained A
  receive w (frame n a) e m =
      if ltb n e || ltb (add64 e w.max_reorder) n
      then stay e m
      else accept w.max_reorder_buffer n a e m
  receive w gap_timeout e m = skip_gap e m

  -- Everything delivered, in the order of delivery, and the state that is left.
  unfoldable pub receive_all : Window → List (Arrival A) → ℕ → List (ℕ × A) → Drained A
  receive_all w [] e m = stay e m
  receive_all w (x ∷ xs) e m =
      let d = receive w x e m in
      let r = receive_all w xs d.expected d.buffer in
      record r { delivered = d.delivered ++ r.delivered }

  -- The nonce of a frame leaves room for a next one.
  abbrev pub Fits : Arrival A → Type 0
  Fits (frame n a) = n < u64_max
  Fits gap_timeout = Unit

  pub receive-Advances :
      (w : Window) (x : Arrival A) (e : ℕ) (m : List (ℕ × A))
      → Fits x
      → IsOrdered e m
      → Advances e (receive w x e m)
  unfolding receive
  receive-Advances w (frame n a) e m fits v =
      elim (Bool-cases (ltb n e || ltb (add64 e w.max_reorder) n)) [
        | inl q ↦ rw q (record { rises = omega arith; ordered = v })
        | inr q ↦ rw q (accept-Advances w.max_reorder_buffer n a e m (ground arith) fits v)
      ]
  receive-Advances w gap_timeout e m fits v = skip_gap-Advances e m v

  receive_all-Advances :
      (w : Window) (xs : List (Arrival A)) (e : ℕ) (m : List (ℕ × A))
      → All Fits xs
      → IsOrdered e m
      → Advances e (receive_all w xs e m)
  unfolding receive_all
  receive_all-Advances w [] e m fits v = record { rises = omega arith; ordered = v }
  receive_all-Advances w (x ∷ xs) e m fits v =
      let d = receive w x e m in
      let first = receive-Advances w x e m fits.0 v in
      let rest = receive_all-Advances w xs d.expected d.buffer fits.1 first.ordered in
      record {
        rises =
            Rises-append e d.expected _ d.delivered (receive_all w xs d.expected d.buffer).delivered
              first.rises rest.rises;
        ordered = rest.ordered;
      }

  -- Whatever arrives, in any order, repeated, missing or recovered: from an ordered state (a fresh
  -- session is one) the delivered frames have strictly rising nonces, from the first expected one
  -- on and below the last, so none is delivered twice or behind a later one; and the state stays
  -- ordered.
  pub receive_all_in_order :
      (w : Window) (xs : List (Arrival A)) (e : ℕ) (m : List (ℕ × A))
      → All Fits xs
      → IsOrdered e m
      → let r = receive_all w xs e m in
        Rises e r.expected r.delivered × IsOrdered r.expected r.buffer
  receive_all_in_order w xs e m fits v =
      let s = receive_all-Advances w xs e m fits v in (s.rises, s.ordered)
