-- ===== src/Server/Join/Rights.antt =====
-- What the token that `join_handler` hands out may do.
use rust4eska.Prelude.{
  ℕ, ◌≡◌, ◌⊎◌, inl, inr, refl, ap, ◌∙◌, Text, text, text_eq, nat_eq, Option, none, some, List, [],
  ◌∷◌, Bool, true, false, ◌==◌, In, In-cons, list_beq_iff, Bool-cases, Result-cases,
}
use rust4eska.Models.{Verb, Resource, Rule, JoinRequest}
use rust4eska.Backend.{Backend}
use rust4eska.Store.Rbac.Spec.{RuleAllows, Granted}
use rust4eska.Server.{AppState}
use rust4eska.Server.Join.{
  accepted, JoinResponse, JoinTask, join_handler, role_of, admit, policy_for, remove_tokens,
  node_name, remove_all, token_keys,
}
use rust4eska.Server.Join.Pool.{join_admits}

module _ {A : Type 0} where
  In-one : {a b : A} → In a (b ∷ []) → a ≡ b
  In-one m = elim (In-cons m) [ inl e ↦ e | inr n ↦ elim n [ ] ]

  In-two : {a b c : A} → In a (b ∷ c ∷ []) → (a ≡ b) ⊎ (a ≡ c)
  In-two m = elim (In-cons m) [ inl e ↦ inl e | inr n ↦ inr (In-one n) ]

agent_rule :
    (verb : Verb) (resource : Resource) (name : Option Text) (rule : Rule) (id : Text)
    → In rule (policy_for (text "agent") id).rules
    → RuleAllows verb resource name rule
    → (verb ≡ Verb.get) × ((resource ≡ Resource.vault) ⊎ (resource ≡ Resource.manifests))
unfolding policy_for
agent_rule verb resource name rule id m a = (
  listed_verb (rw (In-one m) at a.verb_listed),
  listed_resource (rw (In-one m) at a.resource_listed),
)
  where
    listed_verb : In verb (Verb.get ∷ []) ⊎ In Verb.all (Verb.get ∷ []) → verb ≡ Verb.get
    listed_verb (inl n) = In-one n
    listed_verb (inr n) = cc (In-one n)

    listed_resource :
        In resource (Resource.vault ∷ Resource.manifests ∷ [])
          ⊎ In Resource.all (Resource.vault ∷ Resource.manifests ∷ [])
        → (resource ≡ Resource.vault) ⊎ (resource ≡ Resource.manifests)
    listed_resource (inl n) = In-two n
    listed_resource (inr n) = elim (In-two n) [ inl e ↦ cc e | inr e ↦ cc e ]

role_of-cases :
    (allow : Bool) (role : Option Text)
    → (role_of allow role ≡ text "agent") ⊎ ((allow ≡ true) × (role ≡ some (text "master")))
unfolding role_of
role_of-cases allow none = inl refl
role_of-cases allow (some role) = elim (Bool-cases (role == text "master")) [
  | inl e ↦ elim (Bool-cases allow) [
    | inl a ↦ inr (a, ap (λ (x : Text). some x) ((list_beq_iff role (text "master")).0 e))
    | inr a ↦ inl (rw (e, a) refl)
  ]
  | inr e ↦ inl (rw e refl)
]

module _ (B : Backend) where
  open B use {Db, db_get, db_remove, db_iter}

  get-remove_all :
      (ks : List Text) (db : Db) (t k : Text)
      → (text "tokens" == t) ≡ false
      → db_get t k (remove_all B ks db) ≡ db_get t k db
  get-remove_all [] db t k h = refl
  get-remove_all (j ∷ ks) db t k h =
      get-remove_all ks (db_remove (text "tokens") j db).1 t k h
      ∙ B.get-remove_ne (text "tokens") j db t k h

  get-remove_tokens :
      (name : Text) (db : Db) (t k : Text)
      → (text "tokens" == t) ≡ false
      → db_get t k (remove_tokens B name db) ≡ db_get t k db
  unfolding remove_tokens
  get-remove_tokens name db t k h = elim (Result-cases (db_iter (text "tokens") db)) [
    | inl (e, p) ↦ rw (p, remove_tokens) refl
    | inr (items, p) ↦ rw (p, remove_tokens) (get-remove_all (token_keys B name items) db t k h)
  ]

  module _ (allow : Bool) (now : ℕ) (fresh : Text) (req : JoinRequest) (state : AppState B)
      (response : JoinResponse B) (task : JoinTask B)
      (joined : (join_handler B allow now fresh req state).0 ≡ accepted (response, task)) where
    admit-policy :
        (ip : Text) (next : ℕ)
        → let (r, s, t) = admit B req (role_of allow req.role) ip next now fresh state in
          (id : Text) × (t.policy ≡ policy_for (role_of allow req.role) id)
    unfolding admit
    admit-policy ip next = (_, refl)

    -- The policy that comes with a join allows only to get secrets and manifests, unless the master
    -- allows masters to join and the request asks for that role.
    pub join_least_privilege :
        (verb : Verb) (resource : Resource) (name : Option Text) (rule : Rule)
        → In rule task.policy.rules
        → RuleAllows verb resource name rule
        → ((verb ≡ Verb.get) × ((resource ≡ Resource.vault) ⊎ (resource ≡ Resource.manifests)))
          ⊎ ((allow ≡ true) × (req.role ≡ some (text "master")))
    join_least_privilege verb resource name rule m a =
        let (ip, next, q, p) = join_admits B allow now fresh req state response task joined in
        let (id, e) = rw p at (admit-policy ip next) in
        elim (role_of-cases allow req.role) [
          | inl agent ↦ inl (agent_rule verb resource name rule id (rw (e, agent) at m) a)
          | inr master ↦ inr master
        ]

    admit-keeps :
        (ip : Text) (next : ℕ) (name : Text)
        → req.name ≡ some name
        → let (r, s, t) = admit B req (role_of allow req.role) ip next now fresh state in
          (t.token.username ≡ name)
          × (t.token.id ≡ r.agent_token)
          × (s.store.db ≡ remove_tokens B name state.store.db)
    unfolding admit node_name
    admit-keeps ip next name named = rw named (refl, refl, refl)

    -- A node may choose a name that is already a subject: the token that it is given is then a token
    -- of that subject, and what the stored policies grant to the subject they still grant.
    pub join_inherits_grants :
        (subject : Text) (verb : Verb) (resource : Resource) (name : Option Text)
        → req.name ≡ some subject
        → Granted B state.store.db subject verb resource name
        → (task.token.username ≡ subject)
          × (task.token.id ≡ response.agent_token)
          × Granted B
              (join_handler B allow now fresh req state).1.store.db
              task.token.username
              verb
              resource
              name
    join_inherits_grants subject verb resource name named g =
        let (ip, next, q, p) = join_admits B allow now fresh req state response task joined in
        let (user, id, db) = rw p at (admit-keeps ip next subject named) in
        (user, id, rw (user, db) (kept g))
      where
        kept :
            Granted B state.store.db subject verb resource name
            → Granted B (remove_tokens B subject state.store.db) subject verb resource name
        kept g = record {
          key = g.key;
          binding = g.binding;
          policy = g.policy;
          rule = g.rule;
          for_subject = g.for_subject;
          rule_of = g.rule_of;
          allows = g.allows;
          bound = record {
            blob = g.bound.blob;
            stored =
                get-remove_tokens subject state.store.db (text "bindings") g.key refl
                ∙ g.bound.stored;
            decodes = g.bound.decodes;
          };
          defined = record {
            blob = g.defined.blob;
            stored =
                get-remove_tokens subject state.store.db (text "policies") g.binding.policy_id refl
                ∙ g.defined.stored;
            decodes = g.defined.decodes;
          };
        }
