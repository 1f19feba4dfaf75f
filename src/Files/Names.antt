-- ===== src/Files/Names.antt =====
-- Names of entries of a directory.
use rust4eska.Prelude.{
  ◌≡◌, refl, Text, text, text_eq, nat_eq, [], ◌∷◌, false, arith, nat_beq, contains, ◌==◌, is_empty,
}
use rust4eska.Files.{Place, join, names, first_name, walk, enter, is_absolute}

-- The name of one entry of a directory.
pub record IsName (name : Text) : Type 0 where
  pub no_slash : contains name b'/' ≡ false
  pub full : is_empty name ≡ false
  pub not_here : (name == text ".") ≡ false
  pub not_up : (name == text "..") ≡ false

first_name-no_slash : (s : Text) → contains s b'/' ≡ false → first_name s ≡ (s, [])
first_name-no_slash [] h = refl
first_name-no_slash (c ∷ s) h =
    let not_slash : nat_beq c b'/' ≡ false = ground arith in
    let rest = first_name-no_slash s (ground arith) in rw (not_slash, rest) refl

is_absolute-no_slash : (s : Text) → contains s b'/' ≡ false → is_absolute s ≡ false
is_absolute-no_slash [] h = refl
is_absolute-no_slash (c ∷ s) h = ground arith

-- Joining a name adds it.
pub join-IsName : (place : Place) (name : Text) → IsName name → join place name ≡ name ∷ place
unfolding join
join-IsName place name n =
    rw (is_absolute-no_slash name n.no_slash, join)
      (rw (first_name-no_slash name n.no_slash, names, walk)
        (rw (n.full, n.not_here, n.not_up, enter) refl))
