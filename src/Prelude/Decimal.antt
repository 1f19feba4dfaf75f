-- ===== src/Prelude/Decimal.antt =====
-- Numbers printed in decimal, and that printing is one to one.
use Prim.Native.Nat.{ℕ, zero, suc, ◌+◌, ◌-◌, ◌*◌, ◌/◌, ◌%◌, ◌<◌}
use mathlib.Core.Path.{◌≡◌, refl, ap, sym, ◌∙◌}
use mathlib.Core.Logic.{inl, inr}
use mathlib.Core.Bool.{true}
use mathlib.Core.List.{[], ◌∷◌, ◌++◌}
use native.Mathlib.Omega.{arith}
use rust4eska.Prelude.Tests.{ltb, Bool-cases, if◌then◌else◌}
use rust4eska.Prelude.Lists.{all, all-append}
use rust4eska.Prelude.Strings.{Text, is_digit}

-- One digit for each unit of fuel; the number itself is more than enough.
digits_of : ℕ → ℕ → Text
digits_of zero n = []
digits_of (suc f) n =
    let more = digits_of f (n / 10) in
    let last = (48 + n % 10) ∷ [] in if ltb n 10 then last else more ++ last

-- `format!("{}", n)`
unfoldable pub decimal : ℕ → Text
unfolding digits_of
decimal n = digits_of (suc n) n

value_from : ℕ → Text → ℕ
value_from v [] = v
value_from v (d ∷ ds) = value_from (v * 10 + (d - 48)) ds

value-append :
    (v : ℕ) (ds : Text) (d : ℕ) → value_from v (ds ++ d ∷ []) ≡ value_from v ds * 10 + (d - 48)
unfolding value_from
value-append v [] d = refl
value-append v (c ∷ ds) d = value-append (v * 10 + (c - 48)) ds d

value-digits_of : (f n : ℕ) → n < f → value_from 0 (digits_of f n) ≡ n
unfolding digits_of value_from
value-digits_of zero n h = absurd (omega arith)
value-digits_of (suc f) n h = elim (Bool-cases (ltb n 10)) [
  | inl e ↦ rw e (ground arith)
  | inr e ↦ rw e (
      value-append 0 (digits_of f (n / 10)) (48 + n % 10)
      ∙ ground (arith, value-digits_of f (n / 10)))
]

value-decimal : (n : ℕ) → value_from 0 (decimal n) ≡ n
unfolding decimal
value-decimal n = value-digits_of (suc n) n (omega arith)

-- Different numbers print differently.
pub decimal_injective : (m n : ℕ) → decimal m ≡ decimal n → m ≡ n
decimal_injective m n h = sym (value-decimal m) ∙ ap (value_from 0) h ∙ value-decimal n

digits_of-digits : (f n : ℕ) → all is_digit (digits_of f n) ≡ true
unfolding digits_of
digits_of-digits zero n = refl
digits_of-digits (suc f) n = elim (Bool-cases (ltb n 10)) [
  | inl e ↦ rw e (ground arith)
  | inr e ↦
      rw
        (
          e,
          all-append is_digit (digits_of f (n / 10)) ((48 + n % 10) ∷ []),
          digits_of-digits f (n / 10),
        )
        (ground arith)
]

-- A printed number holds nothing but digits.
pub decimal-digits : (n : ℕ) → all is_digit (decimal n) ≡ true
unfolding decimal
decimal-digits n = digits_of-digits (suc n) n

decimal_254 : decimal 254 ≡ 50 ∷ 53 ∷ 52 ∷ []
unfolding decimal
decimal_254 = refl
