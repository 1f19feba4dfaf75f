-- ===== src/Images/Keys.antt =====
-- The keys of crates/r4a-git-registry/src/registry.rs in the tree `registry_meta`.
use mathlib.Core.List.{append_assoc}
use rust4eska.Prelude.{
  ◌≡◌, refl, ap, subst, ◌∙◌, Text, text, text_eq, nat_eq, list_beq, nat_beq_iff, [], ◌∷◌, ◌++◌,
  true, false, ◌==◌, arith, starts_with, is_some, strip_prefix-append,
}
use rust4eska.Images.{tag_key, tag_prefix, manifest_key}

list_beq-append : (p x y : Text) → list_beq (p ++ x) (p ++ y) ≡ list_beq x y
list_beq-append [] x y = refl
list_beq-append (c ∷ p) x y = ground (arith, nat_beq_iff c c, list_beq-append p x y)

-- The key of a tag is no key of a manifest.
pub tag_key-manifest_key :
    (repo tag digest : Text) → (tag_key repo tag == manifest_key repo digest) ≡ false
tag_key-manifest_key repo tag digest =
    list_beq-append repo (0 ∷ text "tag:" ++ tag) (0 ∷ text "manifest:" ++ digest)

pub manifest_key-tag_key :
    (repo tag digest : Text) → (manifest_key repo digest == tag_key repo tag) ≡ false
manifest_key-tag_key repo tag digest =
    list_beq-append repo (0 ∷ text "manifest:" ++ digest) (0 ∷ text "tag:" ++ tag)

-- Keys of one repository are equal as what they name is.
pub tag_key-tag_key : (repo a b : Text) → (tag_key repo a == tag_key repo b) ≡ (a == b)
tag_key-tag_key repo a b = list_beq-append repo (0 ∷ text "tag:" ++ a) (0 ∷ text "tag:" ++ b)

pub manifest_key-manifest_key :
    (repo a b : Text) → (manifest_key repo a == manifest_key repo b) ≡ (a == b)
manifest_key-manifest_key repo a b =
    list_beq-append repo (0 ∷ text "manifest:" ++ a) (0 ∷ text "manifest:" ++ b)

-- The keys of the tags of a repository are those that its prefix finds.
pub starts_with-tag_key :
    (repo tag : Text) → starts_with (tag_key repo tag) (tag_prefix repo) ≡ true
starts_with-tag_key repo tag =
    subst (λ (key : Text). starts_with key (tag_prefix repo) ≡ true)
      (append_assoc (text "repo:") (repo ++ (0 ∷ text "tag:")) tag
        ∙ ap (λ (s : Text). text "repo:" ++ s) (append_assoc repo (0 ∷ text "tag:") tag))
      (ap (λ o. is_some o) (strip_prefix-append (tag_prefix repo) tag))
