-- ===== src/Prelude/Splits.antt =====
-- `split_once`, `rsplit_once` and `trim_matches` of the standard library.
use mathlib.Core.Path.{◌≡◌, ap, ◌∙◌}
use mathlib.Core.Logic.{inl, inr}
use mathlib.Core.Bool.{◌&&◌}
use mathlib.Core.Option
use mathlib.Core.Option.{Option, none, some}
use mathlib.Core.List.{[], ◌∷◌, ◌++◌}
use native.Mathlib.Omega.{arith}
use rust4eska.Prelude.Tests.{nat_beq, if◌then◌else◌, Option-cases, eq_of_some}
use rust4eska.Prelude.Strings.{Text, is_empty, strip_prefix, append-strip_prefix}

-- `str::split_once`: at the first place where the separator stands
unfoldable pub split_once : Text → Text → Option (Text × Text)
split_once [] sep = elim (strip_prefix [] sep) [ some rest ↦ some ([], rest) | none ↦ none ]
split_once (c ∷ s) sep =
    let later = split_once s sep in
    elim (strip_prefix (c ∷ s) sep) [
      | some rest ↦ some ([], rest)
      | none ↦ Option.map (λ (r : Text × Text). (c ∷ r.0, r.1)) later
    ]

-- `str::rsplit_once`: at the last such place
unfoldable pub rsplit_once : Text → Text → Option (Text × Text)
rsplit_once [] sep = elim (strip_prefix [] sep) [ some rest ↦ some ([], rest) | none ↦ none ]
rsplit_once (c ∷ s) sep = elim (rsplit_once s sep) [
  | some r ↦ some (c ∷ r.0, r.1)
  | none ↦ Option.map (λ (rest : Text). ([], rest)) (strip_prefix (c ∷ s) sep)
]

abbrev trim_start : Text → Text
trim_start [] = []
trim_start (c ∷ s) = let more = trim_start s in if nat_beq c b'/' then more else c ∷ s

abbrev trim_end : Text → Text
trim_end [] = []
trim_end (c ∷ s) = let more = trim_end s in if nat_beq c b'/' && is_empty more then [] else c ∷ more

-- `trim_matches('/')`
unfoldable pub trim_slashes : Text → Text
trim_slashes s = trim_end (trim_start s)

pub rsplit_once-append :
    (s sep repo tag : Text) → rsplit_once s sep ≡ some (repo, tag) → s ≡ repo ++ (sep ++ tag)
unfolding rsplit_once
rsplit_once-append [] sep repo tag h = elim (Option-cases (strip_prefix [] sep)) [
  | inl p ↦ absurd (ground arith)
  | inr (rest, p) ↦
      append-strip_prefix [] sep rest p ∙ at_parts (eq_of_some (rw (p, rsplit_once) at h))
]
  where
    at_parts :
        {rest : Text}
        → (◌≡◌ {A = Text × Text} ([], rest) (repo, tag))
        → sep ++ rest ≡ repo ++ (sep ++ tag)
    at_parts q = ap (λ (r : Text × Text). r.0 ++ (sep ++ r.1)) q
rsplit_once-append (c ∷ s) sep repo tag h = elim (Option-cases (rsplit_once s sep)) [
  | inr ((a, b), p) ↦
      ap (λ (t : Text). c ∷ t) (rsplit_once-append s sep a b p)
      ∙ ap (λ (r : Text × Text). r.0 ++ (sep ++ r.1)) (eq_of_some (rw (p, rsplit_once) at h))
  | inl p ↦ elim (Option-cases (strip_prefix (c ∷ s) sep)) [
    | inl q ↦ absurd (cc (rw (p, q, rsplit_once) at h))
    | inr (rest, q) ↦
        append-strip_prefix (c ∷ s) sep rest q
        ∙ ap (λ (r : Text × Text). r.0 ++ (sep ++ r.1)) (eq_of_some (rw (p, q, rsplit_once) at h))
  ]
]
