-- ===== src/Server/Tokens/Exchange.antt =====
-- What the admin secret is exchanged for.
use rust4eska.Prelude.{
  ℕ, ◌≡◌, refl, ap, sym, ◌∙◌, subst, inl, inr, Text, text, text_eq, nat_eq, Option, none, some, [],
  ◌∷◌, Result-cases, true, arith, find, find-In, list_beq_iff, here,
}
use rust4eska.Models.{Verb, Resource, Rule, Token}
use rust4eska.Backend.{Backend}
use rust4eska.Store.Rbac.{can}
use rust4eska.Store.Rbac.Spec.{Granted}
use rust4eska.Store.Rbac.Sound.{can_sound}
use rust4eska.Server.{AppState}
use rust4eska.Server.Reply.{Handled, done, failed}
use rust4eska.Server.Tokens.{issue, token_exchange_handler, list_tokens, is_admin_token, reuse}
use rust4eska.Server.Tokens.Grants.{issue-Issued, Issued-Granted}

module _ (B : Backend) (token_str : Text) (now : ℕ) (state : AppState B) where
  abbrev everything : Rule
  everything = record {
    verbs = Verb.all ∷ [];
    resources = Resource.all ∷ [];
    resource_names = none;
  }

  reuse-Granted :
      (found : Option Token) (token : Token)
      → ((t : Token) → found ≡ some t → is_admin_token B state.store t ≡ true)
      → (reuse B token_str now found state).0 ≡ done token
      → (token.username ≡ text "admin")
        × Granted B
            (reuse B token_str now found state).1.store.db
            (text "admin")
            Verb.all
            Resource.all
            none
  reuse-Granted none token admin h =
      let (q, i) = issue-Issued B token_str now (text "admin") everything state token h in
      (
        ap (λ t. t.username) q,
        Issued-Granted B token_str now (text "admin") everything state
            (issue B token_str now (text "admin") everything state).1.store Verb.all Resource.all
            none i (record { verb_listed = inl here; resource_listed = inl here; names = tt }),
      )
  reuse-Granted (some t) token admin h =
      let passed : is_admin_token B state.store t ≡ true = admin t refl in
      let named : t.username ≡ text "admin" =
        (list_beq_iff t.username (text "admin")).0 (ground arith) in
      let allowed : can B state.store t.username Verb.all Resource.all none ≡ true = ground arith in
      (
        ap (token_of t) (sym h) ∙ named,
        subst (λ (u : Text). Granted B state.store.db u Verb.all Resource.all none) named
            (can_sound B state.store t.username Verb.all Resource.all none allowed),
      )
    where
      token_of : Token → Handled Token → Text
      token_of d (done x) = x.username
      token_of d (failed why) = d.username

  -- The token that the admin secret is exchanged for is one of the subject "admin", and the stored
  -- policies then grant that subject everything, whether an old token is reused or a new one issued.
  pub token_exchange_handler-Granted :
      (token : Token)
      → (token_exchange_handler B token_str now state).0 ≡ done token
      → (token.username ≡ text "admin")
        × Granted B
            (token_exchange_handler B token_str now state).1.store.db
            (text "admin")
            Verb.all
            Resource.all
            none
  unfolding token_exchange_handler
  token_exchange_handler-Granted token h = elim (Result-cases (list_tokens B state.store)) [
    | inl (e, p) ↦ absurd (ground arith)
    | inr (tokens, p) ↦
        let runs : token_exchange_handler B token_str now state
            ≡ reuse B token_str now (find (is_admin_token B state.store) tokens) state =
          rw (p, token_exchange_handler) refl in
        rw runs (
          reuse-Granted (find (is_admin_token B state.store) tokens) token
            (λ t q. (find-In (is_admin_token B state.store) tokens t q).1)
            (ap (λ r. r.0) (sym runs) ∙ h))
  ]
