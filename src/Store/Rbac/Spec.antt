-- ===== src/Store/Rbac/Spec.antt =====
-- What a stored policy grants, said without the loops of `can`.
use rust4eska.Prelude.{◌≡◌, ◌≢◌, ◌⊎◌, Text, text, Option, none, some, List, ◌++◌, In}
use rust4eska.Models.{Verb, Resource, Rule, Policy, Binding}
use rust4eska.Backend.{Backend}
use rust4eska.Store.Entries.{HasEntry}

-- A pattern that ends in '*' stands for the names with its prefix; any other for itself.
pub data NameMatches (name n : Text) : Type 0 where
  exact : ((p : Text) → n ≢ p ++ text "*") → n ≡ name → NameMatches name n
  wildcard :
      (prefix rest : Text) → n ≡ prefix ++ text "*" → name ≡ prefix ++ rest → NameMatches name n

-- A rule with no list of names is for every resource; one with a list is for no nameless request.
abbrev pub NamesAllow : Option Text → Option (List Text) → Type 0
NamesAllow resource_name none = Unit
NamesAllow none (some names) = ⊥
NamesAllow (some name) (some names) = (n : Text) × In n names × NameMatches name n

pub record RuleAllows (verb : Verb) (resource : Resource) (name : Option Text) (rule : Rule)
    : Type 0 where
  pub verb_listed : In verb rule.verbs ⊎ In Verb.all rule.verbs
  pub resource_listed : In resource rule.resources ⊎ In Resource.all rule.resources
  pub names : NamesAllow name rule.resource_names

module _ (B : Backend) where
  open B use {Db, binding_json, policy_json}

  -- Some stored binding of the subject names a stored policy, one of whose rules allows the request.
  pub record Granted (db : Db) (subject : Text) (verb : Verb) (resource : Resource)
      (name : Option Text) : Type 0 where
    pub key : Text
    pub binding : Binding
    pub policy : Policy
    pub rule : Rule
    pub bound : HasEntry B binding_json (text "bindings") key db binding
    pub for_subject : binding.subject ≡ subject
    pub defined : HasEntry B policy_json (text "policies") binding.policy_id db policy
    pub rule_of : In rule policy.rules
    pub allows : RuleAllows verb resource name rule
