-- ===== src/Store/Rbac/Names.antt =====
-- The tests of `can` on one rule, against their specification.
use rust4eska.Prelude.{
  ◌≡◌, ◌⊎◌, inl, inr, refl, ap, Text, text, text_eq, Option, none, some, List, ◌++◌, In, true, Eq,
  ◌==◌, any-In, ◌||◌, In-any, arith, Bool-cases, Option-cases, strip_suffix, strip_prefix,
  strip_suffix-append, append-strip_suffix, strip_prefix-append, append-strip_prefix, list_beq_iff,
  starts_with, nat_eq,
}
use rust4eska.Models.{Verb, Resource, Rule, verb_eq, resource_eq}
use rust4eska.Store.Rbac.{has, name_matches, rule_allows, names_allow}
use rust4eska.Store.Rbac.Spec.{NameMatches, exact, wildcard, NamesAllow, RuleAllows}

module _ {A : Type 0} ⦃e : Eq A⦄ where
  pub has-In : (xs : List A) (a : A) → has xs a ≡ true → In a xs
  has-In xs a h = let (x, m, q) = any-In (λ x. x == a) xs h in rw ((e.same_iff x a).0 q) at m

  pub In-has : (xs : List A) (a : A) → In a xs → has xs a ≡ true
  In-has xs a m = In-any (λ x. x == a) xs a m ((e.same_iff a a).1 refl)

module _ {A : Type 0} ⦃e : Eq A⦄ where
  listed : (xs : List A) (a b : A) → (has xs a || has xs b) ≡ true → In a xs ⊎ In b xs
  listed xs a b h = elim (Bool-cases (has xs a)) [
    | inl p ↦ inl (has-In xs a p)
    | inr p ↦ inr (has-In xs b (ground arith))
  ]

  unlisted : (xs : List A) (a b : A) → In a xs ⊎ In b xs → (has xs a || has xs b) ≡ true
  unlisted xs a b (inl m) = rw (In-has xs a m)
  unlisted xs a b (inr m) = ground (arith, In-has xs b m)

starts_with-append : (p s : Text) → starts_with (p ++ s) p ≡ true
starts_with-append p s = rw (strip_prefix-append p s)

append-starts_with : (s p : Text) → starts_with s p ≡ true → (r : Text) × (s ≡ p ++ r)
append-starts_with s p h = elim (Option-cases (strip_prefix s p)) [
  | inl e ↦ absurd (ground (arith, e))
  | inr (r, e) ↦ (r, append-strip_prefix s p r e)
]

pub name_matches-NameMatches : (name n : Text) → name_matches name n ≡ true → NameMatches name n
unfolding name_matches
name_matches-NameMatches name n h = elim (Option-cases (strip_suffix n (text "*"))) [
  | inl e ↦
      exact
        (λ p q.
          cc (e, ap (λ (t : Text). strip_suffix t (text "*")) q, strip_suffix-append p (text "*")))
        ((list_beq_iff n name).0 (rw (e, name_matches) at h))
  | inr (p, e) ↦
      let (r, q) = append-starts_with name p (rw (e, name_matches) at h) in
      wildcard p r (append-strip_suffix n (text "*") p e) q
]

pub NameMatches-name_matches : (name n : Text) → NameMatches name n → name_matches name n ≡ true
unfolding name_matches
NameMatches-name_matches name n (exact plain q) = elim (Option-cases (strip_suffix n (text "*"))) [
  | inl e ↦ rw (e, name_matches) ((list_beq_iff n name).1 q)
  | inr (p, e) ↦ absurd (plain p (append-strip_suffix n (text "*") p e))
]
NameMatches-name_matches name n (wildcard p r q s) =
    rw (q, strip_suffix-append p (text "*"), s, name_matches) (starts_with-append p r)

names_allow-NamesAllow :
    (name : Option Text) (names : Option (List Text))
    → names_allow name names ≡ true
    → NamesAllow name names
unfolding names_allow
names_allow-NamesAllow name none h = tt
names_allow-NamesAllow none (some names) h = ground arith
names_allow-NamesAllow (some name) (some names) h =
    let (n, m, q) = any-In (name_matches name) names h in (n, m, name_matches-NameMatches name n q)

NamesAllow-names_allow :
    (name : Option Text) (names : Option (List Text))
    → NamesAllow name names
    → names_allow name names ≡ true
unfolding names_allow
NamesAllow-names_allow name none h = refl
NamesAllow-names_allow none (some names) h = absurd h
NamesAllow-names_allow (some name) (some names) (n, m, q) =
    In-any (name_matches name) names n m (NameMatches-name_matches name n q)

module _ (verb : Verb) (resource : Resource) (name : Option Text) (rule : Rule) where
  pub rule_allows-RuleAllows :
      rule_allows verb resource name rule ≡ true → RuleAllows verb resource name rule
  unfolding rule_allows
  rule_allows-RuleAllows h = record {
    verb_listed = listed rule.verbs verb Verb.all (ground arith);
    resource_listed = listed rule.resources resource Resource.all (ground arith);
    names = names_allow-NamesAllow name rule.resource_names (ground arith);
  }

  pub RuleAllows-rule_allows :
      RuleAllows verb resource name rule → rule_allows verb resource name rule ≡ true
  unfolding rule_allows
  RuleAllows-rule_allows a = ground (
    arith,
    unlisted rule.verbs verb Verb.all a.verb_listed,
    unlisted rule.resources resource Resource.all a.resource_listed,
    NamesAllow-names_allow name rule.resource_names a.names,
  )
