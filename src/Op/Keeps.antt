-- ===== src/Op/Keeps.antt =====
-- Predicates on the state that an operation keeps, whatever it returns.
use ostp.Prelude.{Bool, true, false, ◌≡◌, refl}
use ostp.Outcome.{Outcome, ok, err, panic, ProtocolError}
use ostp.Op.{Op, proceed, ◌>>=◌, get, modify, lift, guard, panic_unless, attempt, attempt_result}

abbrev pub Keeps {ℓ κ μ} : {M : Type ℓ} {A : Type κ} → (M → Type μ) → Op M A → Type (ℓ ⊔ μ)
Keeps {M = M} I op = (m : M) → I m → I ((op m).1)

module _ {ℓ μ} {M : Type ℓ} (I : M → Type μ) where
  proceed-keeps {κ ν} :
      {A : Type κ} {B : Type ν} (k : A → Op M B) (r : Outcome A × M)
      → ((a : A) → Keeps I (k a))
      → I (r.1)
      → I ((proceed k r).1)
  proceed-keeps k (ok a, m') next h' = next a m' h'
  proceed-keeps k (err e, m') next h' = h'
  proceed-keeps k (panic, m') next h' = h'

  -- After an operation that may fail and may change the state.
  pub bind-Keeps {κ ν} :
      {A : Type κ} {B : Type ν} (op : Op M A) (k : A → Op M B)
      → Keeps I op
      → ((a : A) → Keeps I (k a))
      → Keeps I (op >>= k)
  unfolding ◌>>=◌
  bind-Keeps op k first next m h = proceed-keeps k (op m) next (first m h)

  -- From what is known after the first operation in this state.
  pub bind-at {κ ν} :
      {A : Type κ} {B : Type ν} (op : Op M A) (k : A → Op M B) (m : M)
      → I ((op m).1)
      → ((a : A) → Keeps I (k a))
      → I (((op >>= k) m).1)
  unfolding ◌>>=◌
  bind-at op k m first next = proceed-keeps k (op m) next first

  pub get-keeps {ν} : {B : Type ν} (k : M → Op M B) (m : M) → I ((k m m).1) → I (((get >>= k) m).1)
  unfolding ◌>>=◌
  get-keeps k m h = h

  pub modify-keeps {ν} :
      {B : Type ν} (change : M → M) (k : Unit {0} → Op M B) (m : M)
      → I ((k tt (change m)).1)
      → I (((modify change >>= k) m).1)
  unfolding ◌>>=◌
  modify-keeps change k m h = h

  pub lift-keeps {κ ν} :
      {A : Type κ} {B : Type ν} (r : Outcome A) (k : A → Op M B) (m : M)
      → I m
      → ((a : A) → I ((k a m).1))
      → I (((lift r >>= k) m).1)
  unfolding ◌>>=◌
  lift-keeps (ok a) k m h next = next a
  lift-keeps (err e) k m h next = h
  lift-keeps panic k m h next = h

  pub guard-keeps {ν} :
      {B : Type ν} (b : Bool) (e : ProtocolError) (k : Unit {0} → Op M B) (m : M)
      → I m
      → (b ≡ true → I ((k tt m).1))
      → I (((guard b e >>= k) m).1)
  unfolding ◌>>=◌
  guard-keeps true e k m h next = next refl
  guard-keeps false e k m h next = h

  pub panic_unless-keeps {ν} :
      {B : Type ν} (b : Bool) (k : Unit {0} → Op M B) (m : M)
      → I m
      → I ((k tt m).1)
      → I (((panic_unless b >>= k) m).1)
  unfolding ◌>>=◌
  panic_unless-keeps true k m h next = next
  panic_unless-keeps false k m h next = h

  attempt_result-keeps {κ} : {A : Type κ} (r : Outcome A × M) → I (r.1) → I ((attempt_result r).1)
  attempt_result-keeps (ok a, m') h' = h'
  attempt_result-keeps (err e, m') h' = h'
  attempt_result-keeps (panic, m') h' = h'

  pub attempt-Keeps {κ} : {A : Type κ} (op : Op M A) → Keeps I op → Keeps I (attempt op)
  unfolding attempt
  attempt-Keeps op first m h = attempt_result-keeps (op m) (first m h)

-- The same with a stronger predicate that the operation keeps, and what follows does not.
module _ {ℓ μ} {M : Type ℓ} (J I : M → Type μ) (weaken : (m : M) → J m → I m) where
  proceed-into {κ ν} :
      {A : Type κ} {B : Type ν} (k : A → Op M B) (r : Outcome A × M)
      → ((a : A) (m : M) → J m → I ((k a m).1))
      → J (r.1)
      → I ((proceed k r).1)
  proceed-into k (ok a, m') next h' = next a m' h'
  proceed-into k (err e, m') next h' = weaken m' h'
  proceed-into k (panic, m') next h' = weaken m' h'

  pub bind-into {κ ν} :
      {A : Type κ} {B : Type ν} (op : Op M A) (k : A → Op M B)
      → Keeps J op
      → ((a : A) (m : M) → J m → I ((k a m).1))
      → (m : M) → J m
      → I (((op >>= k) m).1)
  unfolding ◌>>=◌
  bind-into op k first next m h = proceed-into k (op m) next (first m h)

  pub bind-from {κ ν} :
      {A : Type κ} {B : Type ν} (op : Op M A) (k : A → Op M B) (m : M)
      → J ((op m).1)
      → ((a : A) (m : M) → J m → I ((k a m).1))
      → I (((op >>= k) m).1)
  unfolding ◌>>=◌
  bind-from op k m first next = proceed-into k (op m) next first
