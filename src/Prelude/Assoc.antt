-- ===== src/Prelude/Assoc.antt =====
-- `HashMap` as a list of pairs. Its order stands for the unspecified order of iteration.
use mathlib.Core.Path.{◌≡◌, refl, ap₂, subst}
use mathlib.Core.Logic.{◌⊎◌, inl, inr}
use mathlib.Core.List.{List, [], ◌∷◌, map}
use mathlib.Core.Bool.{not}
use mathlib.Core.Option.{Option, none, some}
use native.Mathlib.Omega.{arith}
use rust4eska.Prelude.Tests.{Bool-cases, eq_of_some, ◌==◌, if◌then◌else◌, list_beq_iff, nat_eq}
use rust4eska.Prelude.Strings.{Text, text_eq}
use rust4eska.Prelude.Lists.{filter, In, here, there, In-cons}

module _ {V : Type 0} where
  abbrev pub lookup : Text → List (Text × V) → Option V
  lookup key [] = none
  lookup key (entry ∷ rest) = if entry.0 == key then some entry.1 else lookup key rest

  abbrev pub remove : Text → List (Text × V) → List (Text × V)
  remove key entries = filter (λ e. not (e.0 == key)) entries

  -- an entry of the key is replaced where it stands, and a new key comes last
  abbrev pub insert : Text → V → List (Text × V) → List (Text × V)
  insert key x [] = (key, x) ∷ []
  insert key x (entry ∷ rest) =
      let behind = insert key x rest in if entry.0 == key then (key, x) ∷ rest else entry ∷ behind

  abbrev pub values : List (Text × V) → List V
  values entries = map (λ e. e.1) entries

  pub lookup-insert :
      (key other : Text) (x : V) (entries : List (Text × V))
      → lookup other (insert key x entries)
        ≡ (if key == other then some x else lookup other entries)
  lookup-insert key other x [] = refl
  lookup-insert key other x (entry ∷ rest) = ground (
    arith,
    lookup-insert key other x rest,
    list_beq_iff entry.0 key,
    list_beq_iff entry.0 other,
    list_beq_iff key other,
  )

  pub lookup-In :
      (k : Text) (v : V) (m : List (Text × V)) → lookup k m ≡ some v → In {A = Text × V} (k, v) m
  lookup-In k v [] h = cc
  lookup-In k v ((j, w) ∷ m) h = elim (Bool-cases (j == k)) [
    | inl e ↦
        let p : (j, w) ≡ (k, v) =
          ap₂ (λ a b. (a, b)) ((list_beq_iff j k).0 e) (eq_of_some (rw e at h)) in
        subst (λ (x : Text × V). In {A = Text × V} x ((j, w) ∷ m)) p here
    | inr e ↦ there (lookup-In k v m (rw e at h))
  ]

  -- What a map holds after an insertion is the new entry or an old one.
  pub In-insert :
      (k : Text) (v : V) (m : List (Text × V)) (e : Text × V)
      → In e (insert k v m)
      → (e ≡ (k, v)) ⊎ In e m
  In-insert k v [] e i = In-cons i
  In-insert k v ((j, w) ∷ m) e i = elim (Bool-cases (j == k)) [
    | inl q ↦ elim (In-cons (rw q at i)) [ inl p ↦ inl p | inr n ↦ inr (there n) ]
    | inr q ↦ elim (In-cons (rw q at i)) [
      | inl p ↦ inr (rw p here)
      | inr n ↦ elim (In-insert k v m e n) [ inl p ↦ inl p | inr o ↦ inr (there o) ]
    ]
  ]
