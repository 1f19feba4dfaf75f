-- ===== src/Actions.antt =====
-- Actions that may fail, built by steps that stay shut, so that rules take a `do` block apart.
pub mod Keeping
pub mod Yielding
use rust4eska.Prelude.{Result, ok, err, Error, Exec}

module _ {S A : Type 0} where
  unfoldable pub pure : A → Exec S A
  pure a s = (ok a, s)

  unfoldable pub lift : Result A → Exec S A
  lift r s = (r, s)

  -- a read of the state that may fail
  unfoldable pub reads : (S → Result A) → Exec S A
  reads f s = (f s, s)

module _ {S A B : Type 0} where
  abbrev pub onward : Result A → S → (A → Exec S B) → Result B × S
  onward (ok found) left next = next found left
  onward (err e) left next = (err e, left)

  infixl 5 ◌>>=◌
  -- opening this opens `pure`, `lift` and `reads` too
  unfoldable pub ◌>>=◌ : Exec S A → (A → Exec S B) → Exec S B
  unfolding pure lift reads
  (step >>= next) before = onward (step before).0 (step before).1 next

module _ {S A B : Type 0} where
  infixl 5 ◌>>◌
  abbrev pub ◌>>◌ : Exec S A → Exec S B → Exec S B
  step >> next = step >>= (λ found. next)
