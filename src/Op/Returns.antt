-- ===== src/Op/Returns.antt =====
-- What is known of the parts of an operation that returned a value.
use ostp.Prelude.{Bool, true, false, ◌≡◌, refl}
use ostp.Outcome.{Outcome, ok, err, panic, ProtocolError}
use ostp.Op.{Op, ◌>>=◌, lift, guard}

module _ {ℓ} {M : Type ℓ} where
  pub lift-ok {κ ν} :
      {A : Type κ} {B : Type ν} (r : Outcome A) (k : A → Op M B) (m : M) (b : B) (m' : M)
      → (lift r >>= k) m ≡ (ok b, m')
      → (a : A) × (r ≡ ok a) × (k a m ≡ (ok b, m'))
  unfolding ◌>>=◌
  lift-ok (ok a) k m b m' h = (a, refl, h)
  lift-ok (err e) k m b m' h = absurd cc
  lift-ok panic k m b m' h = absurd cc

  pub guard-ok {ν} :
      {B : Type ν} (t : Bool) (e : ProtocolError) (k : Unit {0} → Op M B) (m : M) (b : B) (m' : M)
      → (guard t e >>= k) m ≡ (ok b, m')
      → (t ≡ true) × (k tt m ≡ (ok b, m'))
  unfolding ◌>>=◌
  guard-ok true e k m b m' h = (refl, h)
  guard-ok false e k m b m' h = absurd cc
