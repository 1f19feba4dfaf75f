-- ===== src/Actions/Yielding.antt =====
-- What holds of the result and the state when an action has succeeded.
use rust4eska.Prelude.{◌≡◌, refl, subst, Result, ok, err, err≢ok, eq_of_ok, Exec}
use rust4eska.Actions.{pure, lift, reads, onward, ◌>>=◌}

pub record Yields {S A : Type 0} (P : S → Type 0) (m : Exec S A) (Q : A → S → Type 0) : Type 0 where
  pub yields : (s : S) (a : A) → (m s).0 ≡ ok a → P s → Q a (m s).1

onward-yields :
    {S A B : Type 0} (Q : B → S → Type 0) (r : Result A) (s : S) (next : A → Exec S B) (b : B)
    → ((a : A) → r ≡ ok a → (next a s).0 ≡ ok b → Q b (next a s).1)
    → (onward r s next).0 ≡ ok b
    → Q b (onward r s next).1
onward-yields Q (ok a) s next b f h = f a refl h
onward-yields Q (err e) s next b f h = absurd (err≢ok h)

module _ {S A : Type 0} {P : S → Type 0} where
  pub Yields-pure : {Q : A → S → Type 0} (a : A) → ((s : S) → P s → Q a s) → Yields P (pure a) Q
  unfolding pure
  Yields-pure {Q} a f = record { yields = λ s b e p. subst (λ (x : A). Q x s) (eq_of_ok e) (f s p) }

  pub Yields-reads :
      {Q : A → S → Type 0} (f : S → Result A)
      → ((s : S) (a : A) → f s ≡ ok a → P s → Q a s)
      → Yields P (reads f) Q
  unfolding reads
  Yields-reads f k = record { yields = k }

  pub Yields-lift :
      {Q : A → S → Type 0} (r : Result A)
      → ((s : S) (a : A) → r ≡ ok a → P s → Q a s)
      → Yields P (lift r) Q
  unfolding lift
  Yields-lift r k = record { yields = k }

  pub Yields-bind :
      {B : Type 0} {m : Exec S A} {next : A → Exec S B} (R : A → S → Type 0) {Q : B → S → Type 0}
      → Yields P m R
      → ((a : A) → Yields (R a) (next a) Q)
      → Yields P (m >>= next) Q
  unfolding ◌>>=◌
  Yields-bind {m = m} {next = next} R {Q} k f = record {
    yields = λ s b h p.
        onward-yields Q (m s).0 (m s).1 next b
          (λ a e g. (f a).yields (m s).1 b g (k.yields s a e p)) h;
  }
