-- ===== src/Server/Reply.antt =====
-- What the handlers of binaries/r4a-server/src/main.rs that return `Result<_, (StatusCode, String)>`
-- are made of: a failure is its status, and leaves the state as far as it was changed.
use rust4eska.Prelude.{
  ◌≡◌, ◌⊎◌, inl, inr, refl, Option, none, some, Result, ok, err, Exec, Bool, true, false,
}
use rust4eska.Backend.{Backend}
use rust4eska.Store.{Store}
use rust4eska.Server.{AppState}

pub data Failure : Type 0 where
  bad_request forbidden not_found conflict internal_error unavailable : Failure

pub data Handled (A : Type 0) : Type 0 where
  done : A → Handled A
  failed : Failure → Handled A

abbrev pub Handler : Type 0 → Type 0 → Type 0
Handler S A = S → Handled A × S

module _ {S A B : Type 0} where
  abbrev pub go_on : Handled A → (A → Handler S B) → Handler S B
  go_on (done a) f s = f a s
  go_on (failed why) f s = (failed why, s)

  infixl 5 ◌>>=◌ ◌>>◌
  abbrev pub ◌>>=◌ : Handler S A → (A → Handler S B) → Handler S B
  (step >>= next) before = let (r, left) = step before in go_on r next left

  abbrev pub ◌>>◌ : Handler S A → Handler S B → Handler S B
  (step >> next) before = let (r, left) = step before in go_on r (λ found. next) left

module _ {S : Type 0} where
  abbrev pub finish : {A : Type 0} → A → Handler S A
  finish a s = (done a, s)

  abbrev pub fail : {A : Type 0} → Failure → Handler S A
  fail why s = (failed why, s)

  -- `if !allowed { return Err((FORBIDDEN, _)) }`
  abbrev pub guard : Failure → (S → Bool) → Handler S (Unit {0})
  guard why allowed s = elim (allowed s) [ true ↦ (done tt, s) | false ↦ (failed why, s) ]

  -- `.ok_or((status, _))?`
  abbrev pub expect : {A : Type 0} → Failure → Option A → Handler S A
  expect why (some a) s = (done a, s)
  expect why none s = (failed why, s)

-- `.map_err(|e| (INTERNAL_SERVER_ERROR, _))?`
abbrev pub or_internal : {A : Type 0} → Result A → Handled A
or_internal (ok a) = done a
or_internal (err e) = failed internal_error

module _ (B : Backend) where
  -- a read of the store, and a method that changes it
  abbrev pub reading : {A : Type 0} → (Store B → Result A) → Handler (AppState B) A
  reading f state = (or_internal (f state.store), state)

  abbrev pub storing : {A : Type 0} → Exec (Store B) A → Handler (AppState B) A
  storing m state =
      let (r, store') = m state.store in (or_internal r, record state { store = store' })

  -- the same with the result dropped, `let _ = m.await`
  abbrev pub attempt : {A : Type 0} → Exec (Store B) A → AppState B → AppState B
  attempt m state = record state { store = (m state.store).1 }

-- To split on the result of a handler and keep the equation.
pub Handled-cases :
    {A : Type 0} (r : Handled A) → ((why : Failure) × (r ≡ failed why)) ⊎ ((a : A) × (r ≡ done a))
Handled-cases (done a) = inr (a, refl)
Handled-cases (failed why) = inl (why, refl)
