-- ===== src/Server/Registry.antt =====
-- How binaries/r4a-server/src/main.rs reads the keys and the routes of the image registry.
pub mod Tags
pub mod Untagging
pub mod Deleting
use mathlib.Core.Option
use rust4eska.Prelude.{
  ◌≡◌, ◌≢◌, refl, ap, ◌∙◌, Text, text, text_eq, nat_eq, Option, none, some, [], ◌∷◌, ◌++◌, false,
  ◌||◌, if◌then◌else◌, is_empty, nat_beq, contains, strip_prefix, Option-cases, eq_of_some, inl,
  inr, arith,
}
unfoldable use rust4eska.Prelude.{strip_suffix, split_once, rsplit_once, trim_slashes}
use rust4eska.Prelude.{rsplit_once-append}
use rust4eska.Images.{tag_key}

unfoldable pub parse_registry_tag_key : Text → Option (Text × Text)
unfolding split_once
parse_registry_tag_key key =
    Option.bind (strip_prefix key (text "repo:")) (λ rest. split_once rest (0 ∷ text "tag:"))

-- `.filter(|repo| !repo.is_empty())`
abbrev full : Text → Option Text
full repo = if is_empty repo then none else some repo

unfoldable pub parse_registry_tags_route : Text → Option Text
unfolding trim_slashes
parse_registry_tags_route rest = Option.bind (strip_suffix (trim_slashes rest) (text "/tags")) full

abbrev both_full : Text × Text → Option (Text × Text)
both_full (repo, tag) = if is_empty repo || is_empty tag then none else some (repo, tag)

unfoldable pub parse_registry_delete_route : Text → Option (Text × Text)
unfolding trim_slashes rsplit_once
parse_registry_delete_route rest =
    Option.bind (rsplit_once (trim_slashes rest) (text "/tags/")) both_full

split_once-append :
    (repo tag : Text)
    → contains repo 0 ≡ false
    → split_once (repo ++ (0 ∷ text "tag:" ++ tag)) (0 ∷ text "tag:") ≡ some (repo, tag)
unfolding split_once
split_once-append [] tag h = refl
split_once-append (c ∷ repo) tag h =
    let not_sep : nat_beq c 0 ≡ false = ground arith in
    let later = split_once-append repo tag (ground arith) in
    rw (not_sep, split_once) (rw (later, split_once) refl)

-- The key that is written for a tag of a repository, whose name has no zero byte, is read back as
-- that repository and tag.
pub parse_registry_tag_key-tag_key :
    (repo tag : Text)
    → contains repo 0 ≡ false
    → parse_registry_tag_key (tag_key repo tag) ≡ some (repo, tag)
unfolding parse_registry_tag_key Option.bind
parse_registry_tag_key-tag_key repo tag h = split_once-append repo tag h

both_full-parts :
    (a b repo tag : Text)
    → both_full (a, b) ≡ some (repo, tag)
    → (a ≡ repo) × (b ≡ tag) × (repo ≢ []) × (tag ≢ [])
both_full-parts [] b repo tag h = cc h
both_full-parts (c ∷ a) [] repo tag h = cc h
both_full-parts (c ∷ a) (d ∷ b) repo tag h =
    let q = eq_of_some h in
    let p : c ∷ a ≡ repo = ap (λ (r : Text × Text). r.0) q in
    let r : d ∷ b ≡ tag = ap (λ (r : Text × Text). r.1) q in (p, r, λ e. cc (p, e), λ e. cc (r, e))

-- A route of a deletion that is accepted is, without the slashes around it, the repository, "/tags/"
-- and the tag, neither of them empty.
pub parse_registry_delete_route-parts :
    (rest repo tag : Text)
    → parse_registry_delete_route rest ≡ some (repo, tag)
    → (trim_slashes rest ≡ repo ++ (text "/tags/" ++ tag)) × (repo ≢ []) × (tag ≢ [])
unfolding parse_registry_delete_route Option.bind
parse_registry_delete_route-parts rest repo tag h =
    elim (Option-cases (rsplit_once (trim_slashes rest) (text "/tags/"))) [
      | inl p ↦ absurd (cc (rw (p, parse_registry_delete_route) at h))
      | inr ((a, b), p) ↦
          let (q, r, some_repo, some_tag) =
            both_full-parts a b repo tag (rw (p, parse_registry_delete_route) at h) in
          (
            rsplit_once-append (trim_slashes rest) (text "/tags/") a b p ∙ rw (q, r) refl,
            some_repo,
            some_tag,
          )
    ]
