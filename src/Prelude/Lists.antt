-- ===== src/Prelude/Lists.antt =====
-- Lists measured by native numbers, tests on their elements, and predicates over them.
use Prim.Native.Nat.{ℕ, zero, suc, ◌+◌}
use mathlib.Core.Path.{◌≡◌, refl, subst}
use mathlib.Core.Logic.{◌⊎◌, ◌↔◌, inl, inr}
use mathlib.Core.List.{List, [], ◌∷◌, ◌++◌}
use mathlib.Core.Bool.{Bool, true, false, ◌&&◌, ◌||◌}
use mathlib.Core.Option.{Option, none, some}
use native.Mathlib.Omega.{arith}
use rust4eska.Prelude.Tests.{if◌then◌else◌, Bool-cases, eq_of_some}

module _ {ℓ} {A : Type ℓ} where
  abbrev pub length : List A → ℕ
  length [] = 0
  length (x ∷ xs) = suc (length xs)

  abbrev pub take : ℕ → List A → List A
  take zero xs = []
  take (suc n) [] = []
  take (suc n) (x ∷ xs) = x ∷ take n xs

  abbrev pub drop : ℕ → List A → List A
  drop zero xs = xs
  drop (suc n) [] = []
  drop (suc n) (x ∷ xs) = drop n xs

  abbrev pub get_elem? : List A → ℕ → Option A
  get_elem? [] i = none
  get_elem? (x ∷ xs) zero = some x
  get_elem? (x ∷ xs) (suc i) = get_elem? xs i

  -- `Iterator::all` and `Iterator::any`
  abbrev pub all : (A → Bool) → List A → Bool
  all f [] = true
  all f (x ∷ xs) = f x && all f xs

  abbrev pub any : (A → Bool) → List A → Bool
  any f [] = false
  any f (x ∷ xs) = f x || any f xs

  -- `Iterator::find`
  abbrev pub find : (A → Bool) → List A → Option A
  find f [] = none
  find f (x ∷ xs) = if f x then some x else find f xs

  -- `Iterator::filter`, by a Boolean test
  abbrev pub filter : (A → Bool) → List A → List A
  filter f [] = []
  filter f (x ∷ xs) = let rest = filter f xs in if f x then x ∷ rest else rest

  pub length-append : (xs ys : List A) → length (xs ++ ys) ≡ length xs + length ys
  length-append [] ys = omega arith
  length-append (x ∷ xs) ys = omega (arith, length-append xs ys)

  pub all-append : (f : A → Bool) (xs ys : List A) → all f (xs ++ ys) ≡ (all f xs && all f ys)
  all-append f [] ys = refl
  all-append f (x ∷ xs) ys = ground (arith, all-append f xs ys)

-- membership, as data that a proof can take apart
module _ {ℓ} {A : Type ℓ} where
  pub data In (a : A) : List A → Type ℓ where
    here : {xs : List A} → In a (a ∷ xs)
    there : {x : A} {xs : List A} → In a xs → In a (x ∷ xs)

module _ {ℓ} {A : Type ℓ} where
  pub any-In : (f : A → Bool) (xs : List A) → any f xs ≡ true → (a : A) × In a xs × (f a ≡ true)
  any-In f [] h = ground arith
  any-In f (x ∷ xs) h = elim (Bool-cases (f x)) [
    | inl e ↦ (x, here, e)
    | inr e ↦ let (a, m, q) = any-In f xs (ground arith) in (a, there m, q)
  ]

  pub In-any : (f : A → Bool) (xs : List A) (a : A) → In a xs → f a ≡ true → any f xs ≡ true
  In-any f [] a m h = elim m [ ]
  In-any f (x ∷ xs) a here h = ground arith
  In-any f (x ∷ xs) a (there m) h = ground (arith, In-any f xs a m h)

module _ {ℓ} {A : Type ℓ} where
  pub find-In : (f : A → Bool) (xs : List A) (a : A) → find f xs ≡ some a → In a xs × (f a ≡ true)
  find-In f [] a h = cc
  find-In f (x ∷ xs) a h = elim (Bool-cases (f x)) [
    | inl e ↦
        let h' : some x ≡ some a = rw e at h in
        (subst (λ t. In t (x ∷ xs)) (eq_of_some h') here, cc)
    | inr e ↦ let (m, q) = find-In f xs a (rw e at h) in (there m, q)
  ]

  pub filter-In : (f : A → Bool) (xs : List A) (a : A) → In a (filter f xs) → In a xs × (f a ≡ true)
  filter-In f [] a m = elim m [ ]
  filter-In f (x ∷ xs) a m = elim (Bool-cases (f x)) [
    | inl e ↦ filter-In_cons f x xs a e (filter-In f xs a) (rw e at m)
    | inr e ↦ let (k, q) = filter-In f xs a (rw e at m) in (there k, q)
  ]
    where
      filter-In_cons :
          (f : A → Bool) (x : A) (xs : List A) (a : A)
          → f x ≡ true
          → (In a (filter f xs) → In a xs × (f a ≡ true))
          → In a (x ∷ filter f xs)
          → In a (x ∷ xs) × (f a ≡ true)
      filter-In_cons f x xs a e k here = (here, e)
      filter-In_cons f x xs a e k (there n) = let (i, q) = k n in (there i, q)

  pub In-filter : (f : A → Bool) (xs : List A) (a : A) → In a xs → f a ≡ true → In a (filter f xs)
  In-filter f [] a m h = elim m [ ]
  In-filter f (x ∷ xs) a here h = rw h here
  In-filter f (x ∷ xs) a (there m) h = elim (Bool-cases (f x)) [
    | inl e ↦ rw e (there (In-filter f xs a m h))
    | inr e ↦ rw e (In-filter f xs a m h)
  ]

  pub In-cons : {a b : A} {xs : List A} → In a (b ∷ xs) → (a ≡ b) ⊎ In a xs
  In-cons here = inl refl
  In-cons (there m) = inr m

module _ {ℓ} {A : Type ℓ} where
  -- every element satisfies `P`
  abbrev pub Each {κ} : (A → Type κ) → List A → Type κ
  Each P [] = Unit
  Each P (x ∷ xs) = P x × Each P xs

  -- a test on every element, and a predicate that it decides
  pub all-Each {κ} :
      {P : A → Type κ} (f : A → Bool)
      → ((x : A) → (f x ≡ true) ↔ P x)
      → (xs : List A) → (all f xs ≡ true) ↔ Each P xs
  all-Each f h [] = (λ _. tt, λ _. refl)
  all-Each f h (x ∷ xs) = (
    λ p. ((h x).0 (ground arith), (all-Each f h xs).0 (ground arith)),
    λ (q, r). let a = (h x).1 q in let b = (all-Each f h xs).1 r in ground arith,
  )
