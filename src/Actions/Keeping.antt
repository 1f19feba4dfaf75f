-- ===== src/Actions/Keeping.antt =====
-- Predicates on the state that an action keeps, whether it succeeds or fails.
use rust4eska.Prelude.{◌≡◌, refl, Result, ok, err, Exec}
use rust4eska.Actions.{pure, lift, reads, onward, ◌>>=◌}

pub record Keeps {S A : Type 0} (I : S → Type 0) (m : Exec S A) : Type 0 where
  pub kept : (s : S) → I s → I (m s).1

onward-kept :
    {S A B : Type 0} (I : S → Type 0) (r : Result A) (s : S) (next : A → Exec S B)
    → ((a : A) → r ≡ ok a → I (next a s).1)
    → I s
    → I (onward r s next).1
onward-kept I (ok a) s next f i = f a refl
onward-kept I (err e) s next f i = i

module _ {S : Type 0} {I : S → Type 0} where
  pub Keeps-pure : {A : Type 0} (a : A) → Keeps I (pure a)
  unfolding pure
  Keeps-pure a = record { kept = λ s i. i }

  pub Keeps-lift : {A : Type 0} (r : Result A) → Keeps I (lift r)
  unfolding lift
  Keeps-lift r = record { kept = λ s i. i }

  pub Keeps-reads : {A : Type 0} (f : S → Result A) → Keeps I (reads f)
  unfolding reads
  Keeps-reads f = record { kept = λ s i. i }

  module _ {A B : Type 0} where
    pub Keeps-bind :
        {m : Exec S A} {next : A → Exec S B}
        → Keeps I m
        → ((a : A) → Keeps I (next a))
        → Keeps I (m >>= next)
    unfolding ◌>>=◌
    Keeps-bind {m} {next} k f = record {
      kept = λ s i.
          onward-kept I (m s).0 (m s).1 next (λ a e. (f a).kept (m s).1 (k.kept s i)) (k.kept s i);
    }

    -- What follows a read may use what the result says of the state.
    pub Keeps-bind_reads :
        {f : S → Result A} (next : A → Exec S B)
        → ((a : A) (s : S) → f s ≡ ok a → I s → I (next a s).1)
        → Keeps I (reads f >>= next)
    unfolding ◌>>=◌
    Keeps-bind_reads {f} next k = record {
      kept = λ s i. onward-kept I (f s) s next (λ a e. k a s e i) i;
    }

    -- What follows a value may use where it comes from.
    pub Keeps-bind_lift :
        {r : Result A} (next : A → Exec S B)
        → ((a : A) → r ≡ ok a → Keeps I (next a))
        → Keeps I (lift r >>= next)
    unfolding ◌>>=◌
    Keeps-bind_lift {r} next k = record {
      kept = λ s i. onward-kept I r s next (λ a e. (k a e).kept s i) i;
    }

-- An action that starts where one predicate holds and ends, however it ends, where another does.
pub record Leads {S A : Type 0} (J I : S → Type 0) (m : Exec S A) : Type 0 where
  pub led : (s : S) → J s → I (m s).1

module _ {S : Type 0} {J I : S → Type 0} where
  pub Leads-pure : {A : Type 0} → ((s : S) → J s → I s) → (a : A) → Leads J I (pure a)
  unfolding pure
  Leads-pure weaker a = record { led = weaker }

  pub Leads-bind :
      {A B : Type 0} {m : Exec S A} {next : A → Exec S B}
      → ((s : S) → J s → I s)
      → Keeps J m
      → ((a : A) → Leads J I (next a))
      → Leads J I (m >>= next)
  unfolding ◌>>=◌
  Leads-bind {m = m} {next = next} weaker k f = record {
    led = λ s j.
        onward-kept I (m s).0 (m s).1 next (λ a e. (f a).led (m s).1 (k.kept s j))
          (weaker (m s).1 (k.kept s j));
  }

  pub Leads-bind_lift :
      {A B : Type 0} {r : Result A} (next : A → Exec S B)
      → ((s : S) → J s → I s)
      → ((a : A) → r ≡ ok a → Leads J I (next a))
      → Leads J I (lift r >>= next)
  unfolding ◌>>=◌
  Leads-bind_lift {r = r} next weaker f = record {
    led = λ s j. onward-kept I r s next (λ a e. (f a e).led s j) (weaker s j);
  }

  pub Leads-then :
      {A B : Type 0} {m : Exec S A} {next : A → Exec S B}
      → Leads J I m
      → ((a : A) → Keeps I (next a))
      → Leads J I (m >>= next)
  unfolding ◌>>=◌
  Leads-then {m = m} {next = next} k f = record {
    led = λ s j.
        onward-kept I (m s).0 (m s).1 next (λ a e. (f a).kept (m s).1 (k.led s j)) (k.led s j);
  }
