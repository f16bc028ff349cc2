-- ===== src/Op.antt =====
-- Methods on `&mut self` that return a `Result`: the state that an error or a panic leaves behind
-- is part of what they return.
pub mod Keeps
pub mod Returns
use ostp.Prelude.{Bool, true, false, Option, none, some}
use ostp.Outcome.{Outcome, ok, err, panic, ProtocolError}

abbrev pub Op {ℓ κ} : Type ℓ → Type κ → Type (ℓ ⊔ κ)
Op M A = M → Outcome A × M

abbrev pub proceed {ℓ κ μ} :
    {M : Type ℓ} {A : Type κ} {B : Type μ} → (A → Op M B) → Outcome A × M → Outcome B × M
proceed k (ok a, m) = k a m
proceed k (err e, m) = (err e, m)
proceed k (panic, m) = (panic, m)

infixl 5 ◌>>=◌ ◌>>◌
unfoldable pub ◌>>=◌ {ℓ κ μ} :
    {M : Type ℓ} {A : Type κ} {B : Type μ} → Op M A → (A → Op M B) → Op M B
(op >>= k) m = proceed k (op m)

abbrev pub ◌>>◌ {ℓ κ μ} : {M : Type ℓ} {A : Type κ} {B : Type μ} → Op M A → Op M B → Op M B
op >> next = op >>= λ _. next

module _ {ℓ} {M : Type ℓ} where
  abbrev pub pure {κ} : {A : Type κ} → A → Op M A
  pure a m = (ok a, m)

  abbrev pub get : Op M M
  get m = (ok m, m)

  abbrev pub modify : (M → M) → Op M (Unit {0})
  modify change m = (ok tt, change m)

  abbrev pub lift {κ} : {A : Type κ} → Outcome A → Op M A
  lift r m = (r, m)

  abbrev pub guard : Bool → ProtocolError → Op M (Unit {0})
  guard true e m = (ok tt, m)
  guard false e m = (err e, m)

  abbrev pub panic_unless : Bool → Op M (Unit {0})
  panic_unless true m = (ok tt, m)
  panic_unless false m = (panic, m)

  abbrev pub attempt_result {κ} : {A : Type κ} → Outcome A × M → Outcome (Option A) × M
  attempt_result (ok a, m) = (ok (some a), m)
  attempt_result (err e, m) = (ok none, m)
  attempt_result (panic, m) = (panic, m)

  -- `if let Ok(a) = ...`: an error is dropped, what it did to the state stays.
  unfoldable pub attempt {κ} : {A : Type κ} → Op M A → Op M (Option A)
  attempt op m = attempt_result (op m)

abbrev pub some_or_panic {ℓ} : {A : Type ℓ} → Option A → Outcome A
some_or_panic none = panic
some_or_panic (some a) = ok a
