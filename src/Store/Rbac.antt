-- ===== src/Store/Rbac.antt =====
-- `Store::can` of crates/r4a-store/src/lib.rs: the access check of every handler.
pub mod Spec
mod Names
pub mod Sound
use rust4eska.Prelude.{
  Text, text, text_eq, Option, none, some, ok, err, Bool, true, false, not, any, ◌||◌, ◌==◌,
  if◌then◌else◌, strip_suffix, starts_with, Eq, List,
}
use rust4eska.Models.{Verb, Resource, Rule, Binding, verb_eq, resource_eq}
use rust4eska.Backend.{Backend}
use rust4eska.Store.{Store}
use rust4eska.Store.Entities.{get_policy, get_bindings_for_subject}

-- `slice::contains`
abbrev pub has {ℓ} : {A : Type ℓ} ⦃e : Eq A⦄ → List A → A → Bool
has xs a = any (λ x. x == a) xs

-- Exact match only; prefix match requires an explicit trailing '*'.
unfoldable pub name_matches : Text → Text → Bool
name_matches name n = elim (strip_suffix n (text "*")) [
  | some prefix ↦ starts_with name prefix
  | none ↦ n == name
]

-- the test on the names of a rule, `None` for every resource
unfoldable pub names_allow : Option Text → Option (List Text) → Bool
unfolding name_matches
names_allow resource_name none = true
names_allow none (some names) = false
names_allow (some name) (some names) = any (name_matches name) names

-- the body of the loop over the rules: whether it returns `true`
unfoldable pub rule_allows : Verb → Resource → Option Text → Rule → Bool
unfolding names_allow
rule_allows verb resource resource_name rule =
    let verb_match = has rule.verbs verb || has rule.verbs Verb.all in
    let res_match = has rule.resources resource || has rule.resources Resource.all in
    if not verb_match || not res_match then false else names_allow resource_name rule.resource_names

module _ (B : Backend) where
  -- the body of the loop over the bindings: a policy that is missing or unreadable is passed over
  unfoldable pub binding_allows : Store B → Verb → Resource → Option Text → Binding → Bool
  unfolding rule_allows
  binding_allows s verb resource resource_name binding = elim (get_policy B binding.policy_id s) [
    | ok found ↦ elim found [
      | some policy ↦ any (rule_allows verb resource resource_name) policy.rules
      | none ↦ false
    ]
    | err e ↦ false
  ]

  unfoldable pub can : Store B → Text → Verb → Resource → Option Text → Bool
  unfolding binding_allows
  can s subject verb resource resource_name = elim (get_bindings_for_subject B subject s) [
    | ok bindings ↦ any (binding_allows s verb resource resource_name) bindings
    | err e ↦ false
  ]
