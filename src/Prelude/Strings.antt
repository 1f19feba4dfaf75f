-- ===== src/Prelude/Strings.antt =====
-- Text as the list of its bytes, and the string operations that the source uses.
use Prim.Native.Nat.{ℕ}
use Prim.Native.Char.{code}
use Prim.Native.String.{String}
use mathlib.Core.Path.{◌≡◌, refl, ap, subst}
use mathlib.Core.Logic.{inl, inr}
use mathlib.Core.List.{List, [], ◌∷◌, ◌++◌}
use mathlib.Core.Bool.{Bool, true, false, ◌&&◌, ◌||◌}
use mathlib.Core.Option
use mathlib.Core.Option.{Option, none, some}
use native.Mathlib.Omega.{arith}
use rust4eska.Prelude.Tests.{
  eq_of_some, Bool-cases, Eq, nat_beq, nat_beq_iff, nat_eq, leb, if◌then◌else◌, list_beq,
  list_beq_iff,
}
use rust4eska.Prelude.Lists.{any, length, length-append}

abbrev pub Text : Type 0
Text = List ℕ

-- The bytes of an ASCII literal.
abbrev pub text : String → Text
text String.[] = []
text (String.◌∷◌ c s) = code c ∷ text s

-- The parts of a `format!` string, joined from the right.
infixr 65 ◌<>◌
abbrev pub ◌<>◌ : Text → Text → Text
a <> b = a ++ b

instance abbrev pub text_eq : Eq Text
text_eq = record { same = list_beq; same_iff = list_beq_iff }

-- `str::contains` of a character
abbrev pub contains : Text → ℕ → Bool
contains s c = any (λ x. nat_beq x c) s

abbrev pub is_empty : Text → Bool
is_empty [] = true
is_empty (x ∷ xs) = false

-- `str::strip_prefix`: the prefix stands second, as in the source
abbrev pub strip_prefix : Text → Text → Option Text
strip_prefix s [] = some s
strip_prefix [] (p ∷ ps) = none
strip_prefix (x ∷ s) (p ∷ ps) = let rest = strip_prefix s ps in if nat_beq x p then rest else none

abbrev pub is_some {ℓ} : {A : Type ℓ} → Option A → Bool
is_some none = false
is_some (some a) = true

abbrev pub starts_with : Text → Text → Bool
starts_with s p = is_some (strip_prefix s p)

-- `str::strip_suffix`
unfoldable pub strip_suffix : Text → Text → Option Text
strip_suffix [] p = if list_beq [] p then some [] else none
strip_suffix (x ∷ s) p =
    let rest = strip_suffix s p in
    if list_beq (x ∷ s) p then some [] else Option.map (λ r. x ∷ r) rest

abbrev pub is_digit : ℕ → Bool
is_digit c = leb b'0' c && leb c b'9'

abbrev pub is_alpha : ℕ → Bool
is_alpha c = (leb b'a' c && leb c b'z') || (leb b'A' c && leb c b'Z')

-- `char::is_ascii_alphanumeric`
abbrev pub is_alphanumeric : ℕ → Bool
is_alphanumeric c = is_alpha c || is_digit c

-- A prefix that is stripped and put back gives the text again, and only then is it stripped.
pub strip_prefix-append : (p s : Text) → strip_prefix (p ++ s) p ≡ some s
strip_prefix-append [] s = refl
strip_prefix-append (c ∷ p) s = ground (arith, nat_beq_iff c c, strip_prefix-append p s)

pub append-strip_prefix : (s p r : Text) → strip_prefix s p ≡ some r → s ≡ p ++ r
append-strip_prefix s [] r h = ground arith
append-strip_prefix [] (c ∷ p) r h = ground arith
append-strip_prefix (x ∷ s) (c ∷ p) r h = ground (arith, nat_beq_iff x c, append-strip_prefix s p r)

length-list_beq : (s p : Text) → list_beq s p ≡ true → length s ≡ length p
length-list_beq s p h = ap length ((list_beq_iff s p).0 h)

-- A suffix that is appended is the one that is stripped.
pub strip_suffix-append : (r p : Text) → strip_suffix (r ++ p) p ≡ some r
unfolding strip_suffix
strip_suffix-append [] [] = refl
strip_suffix-append [] (c ∷ p) = ground (arith, nat_beq_iff c c, list_beq_iff p p)
strip_suffix-append (x ∷ r) p = elim (Bool-cases (list_beq (x ∷ (r ++ p)) p)) [
  | inl e ↦ absurd (omega (arith, length-list_beq (x ∷ (r ++ p)) p e, length-append {0} r p))
  | inr e ↦ rw e (rw (strip_suffix-append r p))
]

append-map_cons :
    (x : ℕ) (s p r : Text) (o : Option Text)
    → ((q : Text) → o ≡ some q → s ≡ q ++ p)
    → Option.map (λ (q : Text). x ∷ q) o ≡ some r
    → x ∷ s ≡ r ++ p
append-map_cons x s p r none f k = cc
append-map_cons x s p r (some q) f k =
    subst (λ (t : Text). x ∷ s ≡ t ++ p) (eq_of_some k) (ap (λ (t : Text). x ∷ t) (f q refl))

pub append-strip_suffix : (s p r : Text) → strip_suffix s p ≡ some r → s ≡ r ++ p
unfolding strip_suffix
append-strip_suffix [] p r h = ground (arith, list_beq_iff [] p)
append-strip_suffix (x ∷ s) p r h = elim (Bool-cases (list_beq (x ∷ s) p)) [
  | inl e ↦
      subst (λ (t : Text). x ∷ s ≡ t ++ p) (eq_of_some (rw e at h)) ((list_beq_iff (x ∷ s) p).0 e)
  | inr e ↦ append-map_cons x s p r (strip_suffix s p) (λ q. append-strip_suffix s p q) (rw e at h)
]
