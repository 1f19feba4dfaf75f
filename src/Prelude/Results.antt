-- ===== src/Prelude/Results.antt =====
-- Fallible code: `Result`, and code that may fail and changes a state, which stays changed when it
-- fails.
use mathlib.Core.Path.{◌≡◌, refl}
use mathlib.Core.Logic.{◌⊎◌, inl, inr}
use mathlib.Core.Option.{Option, none, some}

-- `anyhow::Error`: one value for a failure of a library, one for each failure that the code makes.
pub data Error : Type 0 where
  external : Error
  invalid : Error
  not_found : Error
  forbidden : Error

pub data Result {ℓ} (A : Type ℓ) : Type ℓ where
  ok : A → Result A
  err : Error → Result A

-- `Result::ok`
abbrev pub to_option {ℓ} : {A : Type ℓ} → Result A → Option A
to_option (ok a) = some a
to_option (err e) = none

abbrev pub bind {ℓ κ} : {A : Type ℓ} {B : Type κ} → Result A → (A → Result B) → Result B
bind (ok a) f = f a
bind (err e) f = err e

abbrev pub Exec : Type 0 → Type 0 → Type 0
Exec S A = S → Result A × S

module _ {S A : Type 0} where
  abbrev pub pure : A → Exec S A
  pure a s = (ok a, s)

  abbrev pub raise : Error → Exec S A
  raise e s = (err e, s)

  abbrev pub lift : Result A → Exec S A
  lift r s = (r, s)

  -- a read of the state that may fail
  abbrev pub reads : (S → Result A) → Exec S A
  reads f s = (f s, s)

module _ {S A B : Type 0} where
  -- what follows a step: a failure ends the action, in the state that it left
  abbrev pub continue : (A → Exec S B) → Result A × S → Result B × S
  continue next (err e, left) = (err e, left)
  continue next (ok found, left) = next found left

  infixl 5 ◌>>=◌
  abbrev pub ◌>>=◌ : Exec S A → (A → Exec S B) → Exec S B
  (step >>= next) before = continue next (step before)

module _ {S A B : Type 0} where
  infixl 5 ◌>>◌
  abbrev pub ◌>>◌ : Exec S A → Exec S B → Exec S B
  (step >> next) before = continue (λ found. next) (step before)

-- To split on the result of a call and keep the equation.
pub Result-cases {ℓ} :
    {A : Type ℓ} (r : Result A) → ((e : _) × (r ≡ err e)) ⊎ ((a : A) × (r ≡ ok a))
Result-cases (ok a) = inr (a, refl)
Result-cases (err e) = inl (e, refl)

pub eq_of_ok {ℓ} : {A : Type ℓ} {a b : A} → ok a ≡ ok b → a ≡ b
eq_of_ok h = cc

pub err≢ok {ℓ} : {A : Type ℓ} {a : A} {e : Error} → err e ≡ ok a → ⊥
err≢ok h = cc
