-- ===== src/Server/Tokens/Grants.antt =====
-- What a new token may do, and that a deleted one is of no use.
use rust4eska.Prelude.{
  ℕ, ◌==◌, ◌&&◌, if◌then◌else◌, ◌≡◌, ◌≢◌, refl, ap, sym, ◌∙◌, inl, inr, Text, text, text_eq, nat_eq,
  Option, none, some, [], ◌∷◌, ◌++◌, here, Result-cases, ok, Bool-cases, true, arith, eq_refl,
}
use rust4eska.Models.{Verb, Resource, Rule, Token}
use rust4eska.Backend.{Backend}
use rust4eska.Store.{Store, delete}
use rust4eska.Store.Entities.{put_policy, put_binding, put_token}
use rust4eska.Store.Entries.{HasEntry}
use rust4eska.Store.Writes.{put_as-HasEntry, HasEntry-put_as}
use rust4eska.Store.Rbac.Spec.{RuleAllows, Granted}
use rust4eska.Store.Sync.Replication.{delete_outcome}
use rust4eska.Server.{AppState}
use rust4eska.Server.Auth.{require_token, require_token_iff}
use rust4eska.Server.Reply.{Failure, Handled, done, failed, guard}
use rust4eska.Server.Tokens.{
  TokenCreateRequest, issue, token_create_handler, token_delete_handler, new_policy, new_binding,
  new_token, may_tokens,
}

err_done : {A : Type 0} {a : A} {why : Failure} → failed why ≡ done a → ⊥
err_done e = cc

module _ (B : Backend) where
  open B use {token_json, policy_json, binding_json}

  -- the store after the writes of `issue`
  pub record Issued (token_str : Text) (now : ℕ) (username : Text) (rule : Rule) (s : Store B)
      : Type 0 where
    policy :
        HasEntry B policy_json
          (text "policies")
          (text "policy-" ++ token_str)
          s.db
          (new_policy B token_str rule)
    binding :
        HasEntry B binding_json
          (text "bindings")
          (text "binding-" ++ token_str)
          s.db
          (new_binding B token_str username)
    token :
        HasEntry B token_json (text "tokens") token_str s.db (new_token B token_str username now)

  module _ (token_str : Text) (now : ℕ) (username : Text) (rule : Rule) (state : AppState B) where
    all_three :
        let p1 = put_policy B (new_policy B token_str rule) state.store in
        let p2 = put_binding B (new_binding B token_str username) p1.1 in
        let p3 = put_token B (new_token B token_str username now) p2.1 in
        p1.0 ≡ ok tt → p2.0 ≡ ok tt → p3.0 ≡ ok tt → Issued token_str now username rule p3.1
    unfolding put_policy put_binding put_token
    all_three p q r =
        let policy_id = text "policy-" ++ token_str in
        let binding_id = text "binding-" ++ token_str in
        let policy = new_policy B token_str rule in
        let binding = new_binding B token_str username in
        let token = new_token B token_str username now in
        let s1 = (put_policy B policy state.store).1 in
        let s2 = (put_binding B binding s1).1 in
        record {
          policy =
              HasEntry-put_as B token_json (text "tokens") token_str token s2 policy_json
                (text "policies") policy_id policy refl r
                (HasEntry-put_as B binding_json (text "bindings") binding_id binding s1 policy_json
                  (text "policies") policy_id policy refl q
                  (put_as-HasEntry B policy_json (text "policies") policy_id policy state.store p));
          binding =
              HasEntry-put_as B token_json (text "tokens") token_str token s2 binding_json
                (text "bindings") binding_id binding refl r
                (put_as-HasEntry B binding_json (text "bindings") binding_id binding s1 q);
          token = put_as-HasEntry B token_json (text "tokens") token_str token s2 r;
        }

    pub issue-Issued :
        (t : Token)
        → (issue B token_str now username rule state).0 ≡ done t
        → (t ≡ new_token B token_str username now)
          × Issued token_str now username rule (issue B token_str now username rule state).1.store
    unfolding issue
    issue-Issued t h =
        let p1 = put_policy B (new_policy B token_str rule) state.store in
        let p2 = put_binding B (new_binding B token_str username) p1.1 in
        let p3 = put_token B (new_token B token_str username now) p2.1 in
        elim (Result-cases p1.0) [
          | inl (e, p) ↦ absurd (ground arith)
          | inr (u, p) ↦ elim (Result-cases p2.0) [
            | inl (e, q) ↦ absurd (ground arith)
            | inr (v, q) ↦ elim (Result-cases p3.0) [
              | inl (e, r) ↦ absurd (ground arith)
              | inr (w, r) ↦
                  let runs : issue B token_str now username rule state
                      ≡ (done (new_token B token_str username now), record state { store = p3.1 }) =
                    rw (p, q, r, issue) refl in
                  (ap (token_of t) (sym h ∙ ap (λ x. x.0) runs), rw runs (all_three p q r))
            ]
          ]
        ]
      where
        token_of : Token → Handled Token → Token
        token_of d (done x) = x
        token_of d (failed why) = d

    pub Issued-Granted :
        (s : Store B) (verb : Verb) (resource : Resource) (name : Option Text)
        → Issued token_str now username rule s
        → RuleAllows verb resource name rule
        → Granted B s.db username verb resource name
    Issued-Granted s verb resource name i a = record {
      key = text "binding-" ++ token_str;
      binding = new_binding B token_str username;
      policy = new_policy B token_str rule;
      rule = rule;
      bound = i.binding;
      for_subject = refl;
      defined = i.policy;
      rule_of = here;
      allows = a;
    }

  module _ (token_str : Text) (now : ℕ) (t : Token) (req : TokenCreateRequest)
      (state : AppState B) where
    abbrev rule_of : Rule
    rule_of = record {
      verbs = req.verbs;
      resources = req.resources;
      resource_names = req.resource_names;
    }

    -- A token is created only for a caller who may create tokens. It is one of the requested subject
    -- and authenticates as that right after it. The store then holds a policy with the requested rule
    -- alone, and a binding of the subject to that policy.
    pub token_create_handler-HasEntry :
        (token : Token)
        → (token_create_handler B token_str now t req state).0 ≡ done token
        → let after = (token_create_handler B token_str now t req state).1 in
          (may_tokens B Verb.create t state ≡ true)
          × (token.username ≡ req.username)
          × (require_token B after (some (text "Bearer " ++ token.id)) ≡ some token)
          × ((id : Text) × (policy_id : Text) × HasEntry B policy_json
                (text "policies")
                policy_id
                after.store.db
                (record { id = policy_id; rules = rule_of ∷ [] })
              × HasEntry B binding_json
                  (text "bindings")
                  id
                  after.store.db
                  (record { id = id; subject = req.username; policy_id = policy_id }))
    unfolding token_create_handler
    token_create_handler-HasEntry token h = elim (Bool-cases (may_tokens B Verb.create t state)) [
      | inr barred ↦ absurd (err_done (rw (barred, token_create_handler, guard) at h))
      | inl may_go ↦
          let runs : token_create_handler B token_str now t req state
              ≡ issue B token_str now req.username rule_of state =
            rw (may_go, token_create_handler, guard) refl in
          let (q, i) =
            issue-Issued token_str now req.username rule_of state token
              (ap (λ x. x.0) (sym runs) ∙ h) in
          let after = (issue B token_str now req.username rule_of state).1 in
          rw q (
            rw runs (
              may_go,
              refl,
              (require_token_iff B after (some (text "Bearer " ++ token_str))
                    (new_token B token_str req.username now)).1
                  (token_str, refl, i.token),
              (text "binding-" ++ token_str, text "policy-" ++ token_str, i.policy, i.binding),
            ))
    ]

  module _ (t : Token) (id : Text) (state : AppState B) where
    no_entry :
        (after : AppState B) (token : Token)
        → require_token B after (some (text "Bearer " ++ id)) ≡ some token
        → B.db_get (text "tokens") id after.store.db ≡ (
            if text "tokens" == text "tokens" && id == id
            then ok none
            else B.db_get (text "tokens") id state.store.db)
        → ⊥
    no_entry after token found gone =
        let (id', e, entry) =
          (require_token_iff B after (some (text "Bearer " ++ id)) token).0 found in
        let same : id ≡ id' = cc e in
        let stored = entry.stored in ground (arith, same, stored, gone, eq_refl id)

    -- Once a token is deleted, its id authenticates nobody; the deletion needs the permission, and no
    -- other entry of the database changes.
    pub token_delete_handler-gone :
        (token : Token) (tree key : Text)
        → (token_delete_handler B t (some id) state).0 ≡ done tt
        → let after = (token_delete_handler B t (some id) state).1 in
          (may_tokens B Verb.delete t state ≡ true)
          × (require_token B after (some (text "Bearer " ++ id)) ≢ some token)
          × (B.db_get tree key after.store.db ≡ (
              if text "tokens" == tree && id == key
              then ok none
              else B.db_get tree key state.store.db))
    unfolding token_delete_handler
    token_delete_handler-gone token tree key h =
        elim (Bool-cases (may_tokens B Verb.delete t state)) [
          | inr barred ↦ absurd (err_done (rw (barred, token_delete_handler, guard) at h))
          | inl may_go ↦ elim (Result-cases (delete B (text "tokens") id state.store).0) [
            | inl (e, p) ↦ absurd (err_done (rw (may_go, p, token_delete_handler, guard) at h))
            | inr (u, p) ↦
                let runs : token_delete_handler B t (some id) state ≡ (
                  done tt,
                  record state { store = (delete B (text "tokens") id state.store).1 },
                ) =
                  rw (may_go, p, token_delete_handler, guard) refl in
                let gone =
                  (delete_outcome B (text "tokens") id state.store (text "tokens") id p).0 in
                rw runs (
                  may_go,
                  λ found.
                      no_entry
                        (record state { store = (delete B (text "tokens") id state.store).1 }) token
                        found gone,
                  (delete_outcome B (text "tokens") id state.store tree key p).0,
                )
          ]
        ]
