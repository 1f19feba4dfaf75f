-- ===== src/Vpn/Lines.antt =====
-- A WireGuard configuration read line by line.
use mathlib.Core.List.{append_assoc}
use rust4eska.Prelude.{
  ℕ, ◌≡◌, refl, ap, sym, ◌∙◌, Text, List, [], ◌∷◌, ◌++◌, false, contains, nat_beq, if◌then◌else◌,
  arith,
}

unfoldable pub push : ℕ → List Text → List Text
push c [] = (c ∷ []) ∷ []
push c (l ∷ ls) = (c ∷ l) ∷ ls

-- The lines of a text: what stands before, between and after its newlines.
unfoldable pub lines : Text → List Text
unfolding push
lines [] = [] ∷ []
lines (c ∷ s) = let rest = lines s in if nat_beq c 10 then [] ∷ rest else push c rest

lines_line : (a s : Text) → contains a 10 ≡ false → lines (a ++ 10 ∷ s) ≡ a ∷ lines s
unfolding lines
lines_line [] s h = refl
lines_line (c ∷ a) s h = ground (arith, lines_line a s)

-- A part without a newline, and a newline behind it, are a line.
pub line_step :
    (a s : Text) (ls : List Text)
    → contains a 10 ≡ false
    → lines s ≡ ls
    → lines (a ++ 10 ∷ s) ≡ a ∷ ls
line_step a s ls h e = lines_line a s h ∙ ap (λ (l : List Text). a ∷ l) e

contains-append :
    (a b : Text) (c : ℕ) → contains a c ≡ false → contains b c ≡ false → contains (a ++ b) c ≡ false
contains-append [] b c h k = k
contains-append (x ∷ a) b c h k = ground (arith, contains-append a b c)

-- The same of two parts.
pub line_step_two :
    (a b s : Text) (ls : List Text)
    → contains a 10 ≡ false
    → contains b 10 ≡ false
    → lines s ≡ ls
    → lines (a ++ (b ++ 10 ∷ s)) ≡ (a ++ b) ∷ ls
line_step_two a b s ls h k e =
    ap lines (sym (append_assoc a b (10 ∷ s)))
    ∙ line_step (a ++ b) s ls (contains-append a b 10 h k) e

pub lines-nil : lines [] ≡ [] ∷ []
unfolding lines
lines-nil = refl
