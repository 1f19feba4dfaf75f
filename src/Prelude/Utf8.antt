-- ===== src/Prelude/Utf8.antt =====
-- `std::str::from_utf8` and `String::from_utf8`, by the table of the Unicode standard.
use mathlib.Core.Bool.{Bool, true, false, ◌&&◌}
use mathlib.Core.Option.{Option, none, some}
use mathlib.Core.List.{List, [], ◌∷◌}
use Prim.Native.Nat.{ℕ}
use rust4eska.Prelude.Tests.{ltb, leb, nat_beq, if◌then◌else◌}
use rust4eska.Prelude.Strings.{Text}
use rust4eska.Prelude.Results.{Result, ok, err, Error}

-- the ranges of the bytes that must follow a first byte in UTF-8
abbrev cont : ℕ × ℕ
cont = (128, 191)

abbrev following : ℕ → Option (List (ℕ × ℕ))
following c =
    if ltb c 128
    then some []
    else if leb 194 c && leb c 223
    then some (cont ∷ [])
    else if nat_beq c 224
    then some ((160, 191) ∷ cont ∷ [])
    else if nat_beq c 237
    then some ((128, 159) ∷ cont ∷ [])
    else if leb 225 c && leb c 239
    then some (cont ∷ cont ∷ [])
    else if nat_beq c 240
    then some ((144, 191) ∷ cont ∷ cont ∷ [])
    else if leb 241 c && leb c 243
    then some (cont ∷ cont ∷ cont ∷ [])
    else if nat_beq c 244
    then some ((128, 143) ∷ cont ∷ cont ∷ [])
    else none

unfoldable pub utf8_from : List (ℕ × ℕ) → Text → Bool
utf8_from [] [] = true
utf8_from (r ∷ rs) [] = false
utf8_from [] (c ∷ s) = elim (following c) [ none ↦ false | some rs ↦ utf8_from rs s ]
utf8_from ((lo, hi) ∷ rs) (c ∷ s) = leb lo c && leb c hi && utf8_from rs s

-- whether `std::str::from_utf8` succeeds
unfoldable pub is_utf8 : Text → Bool
unfolding utf8_from
is_utf8 s = utf8_from [] s

unfoldable pub from_utf8 : Text → Result Text
unfolding is_utf8
from_utf8 bytes = if is_utf8 bytes then ok bytes else err Error.external
