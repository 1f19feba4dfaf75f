-- ===== src/Store/Rbac/Sound.antt =====
-- `can` of crates/r4a-store/src/lib.rs, against what the stored policies grant.
use rust4eska.Prelude.{
  ◌≡◌, refl, subst, nat_eq, inl, inr, Text, text, text_eq, Option, none, some, List, Result,
  Result-cases, eq_of_ok, err≢ok, ok, In, true, all, any-In, In-any, arith, filter, filter-In,
  In-filter, ◌==◌, list_beq_iff,
}
use rust4eska.Models.{Verb, Resource, Binding}
use rust4eska.Backend.{Backend, is_ok}
use rust4eska.Store.{Store, list_as, decoded}
use rust4eska.Store.Entities.{get_policy, get_bindings_for_subject}
use rust4eska.Store.Entries.{
  HasEntry, list_as-HasEntry, HasEntry-list_as, get_as-HasEntry, HasEntry-get_as,
}
use rust4eska.Store.Rbac.{can, binding_allows, rule_allows}
use rust4eska.Store.Rbac.Spec.{Granted}
use rust4eska.Store.Rbac.Names.{rule_allows-RuleAllows, RuleAllows-rule_allows}

module _ (B : Backend) (s : Store B) where
  open B use {db_iter, policy_json, binding_json}

  bindings_for-HasEntry :
      (subject : Text) (bs : List Binding) (b : Binding)
      → get_bindings_for_subject B subject s ≡ ok bs
      → In b bs
      → ((key : Text) × HasEntry B binding_json (text "bindings") key s.db b)
        × (b.subject ≡ subject)
  unfolding get_bindings_for_subject
  bindings_for-HasEntry subject bs b h m =
      elim (Result-cases (list_as B binding_json (text "bindings") s)) [
        | inl (e, p) ↦ absurd (err≢ok (rw p at h))
        | inr (all_bs, p) ↦
            let kept = rw (← eq_of_ok (rw p at h)) at m in
            let (n, q) = filter-In (λ x. x.subject == subject) all_bs b kept in
            (
              list_as-HasEntry B binding_json (text "bindings") s all_bs b p n,
              (list_beq_iff b.subject subject).0 q,
            )
      ]

  binding_allows-Granted :
      (verb : Verb) (resource : Resource) (name : Option Text) (b : Binding) (key : Text)
      → HasEntry B binding_json (text "bindings") key s.db b
      → binding_allows B s verb resource name b ≡ true
      → Granted B s.db b.subject verb resource name
  unfolding binding_allows
  binding_allows-Granted verb resource name b key bound h =
      elim (Result-cases (get_policy B b.policy_id s)) [
        | inl (e, p) ↦ ground arith
        | inr (none, p) ↦ ground arith
        | inr (some policy, p) ↦
            let (rule, m, q) =
              any-In (rule_allows verb resource name) policy.rules (ground arith) in
            record {
              key = key;
              binding = b;
              policy = policy;
              rule = rule;
              bound = bound;
              for_subject = refl;
              defined =
                  unfold get_policy in
                  get_as-HasEntry B policy_json (text "policies") b.policy_id s policy p;
              rule_of = m;
              allows = rule_allows-RuleAllows verb resource name rule q;
            }
      ]

  -- What `can` allows is granted by the stored policies.
  pub can_sound :
      (subject : Text) (verb : Verb) (resource : Resource) (name : Option Text)
      → can B s subject verb resource name ≡ true
      → Granted B s.db subject verb resource name
  unfolding can
  can_sound subject verb resource name h =
      elim (Result-cases (get_bindings_for_subject B subject s)) [
        | inl (e, p) ↦ ground arith
        | inr (bs, p) ↦
            let (b, m, q) = any-In (binding_allows B s verb resource name) bs (ground arith) in
            let ((key, bound), eq) = bindings_for-HasEntry subject bs b p m in
            subst (λ (x : Text). Granted B s.db x verb resource name) eq
              (binding_allows-Granted verb resource name b key bound q)
      ]

  Granted-binding_allows :
      (subject : Text) (verb : Verb) (resource : Resource) (name : Option Text)
      (g : Granted B s.db subject verb resource name)
      → binding_allows B s verb resource name g.binding ≡ true
  unfolding binding_allows get_policy
  Granted-binding_allows subject verb resource name g =
      rw
        (
          HasEntry-get_as B policy_json (text "policies") g.binding.policy_id s g.policy g.defined,
          binding_allows,
        )
        (In-any (rule_allows verb resource name) g.policy.rules g.rule g.rule_of
          (RuleAllows-rule_allows verb resource name g.rule g.allows))

  -- What the stored policies grant is allowed, if the bindings can be read without an error.
  pub can_complete :
      (subject : Text) (verb : Verb) (resource : Resource) (name : Option Text)
      (items : List (Result (Text × B.Blob)))
      → db_iter (text "bindings") s.db ≡ ok items
      → all is_ok items ≡ true
      → Granted B s.db subject verb resource name
      → can B s subject verb resource name ≡ true
  unfolding can get_bindings_for_subject
  can_complete subject verb resource name items h readable g =
      rw (h, can)
        (In-any (binding_allows B s verb resource name)
          (filter (λ x. x.subject == subject) (decoded B binding_json items)) g.binding
          (In-filter (λ x. x.subject == subject) (decoded B binding_json items) g.binding
            (HasEntry-list_as B binding_json (text "bindings") g.key s g.binding items h readable
              g.bound)
            ((list_beq_iff g.binding.subject subject).1 g.for_subject))
          (Granted-binding_allows subject verb resource name g))
