-- ===== src/Server/Tokens.antt =====
-- The handlers of binaries/r4a-server/src/main.rs for access tokens. From outside come the token that
-- `generate_token` draws and the time.
pub mod Grants
pub mod Exchange
use rust4eska.Prelude.{
  ℕ, Text, text, text_eq, nat_eq, Option, none, some, List, [], ◌∷◌, ◌++◌, find, Result, ok, err,
  Bool, true, false, ◌&&◌, ◌==◌,
}
use rust4eska.Models.{Verb, Resource, Rule, Policy, Binding, Token}
use rust4eska.Backend.{Backend}
use rust4eska.Store.{Store, list_as, delete}
use rust4eska.Store.Entities.{put_policy, put_binding, put_token}
use rust4eska.Store.Rbac.{can}
use rust4eska.Server.{AppState}
use rust4eska.Server.Reply.{
  Handler, done, failed, forbidden, bad_request, finish, guard, expect, reading, storing, ◌>>=◌,
  ◌>>◌,
}

pub record TokenCreateRequest : Type 0 where
  pub username : Text
  pub verbs : List Verb
  pub resources : List Resource
  pub resource_names : Option (List Text)

module _ (B : Backend) where
  abbrev pub may_tokens : Verb → Token → AppState B → Bool
  may_tokens verb t state = can B state.store t.username verb Resource.tokens none

  -- the tree of tokens, without what cannot be read
  abbrev pub list_tokens : Store B → Result (List Token)
  list_tokens = list_as B B.token_json (text "tokens")

  unfoldable pub tokens_list_handler : Token → Handler (AppState B) (List Token)
  tokens_list_handler t = do guard forbidden (may_tokens Verb.list t); reading B list_tokens

  abbrev pub new_policy : Text → Rule → Policy
  new_policy token_str rule = record { id = text "policy-" ++ token_str; rules = rule ∷ [] }

  abbrev pub new_binding : Text → Text → Binding
  new_binding token_str username = record {
    id = text "binding-" ++ token_str;
    subject = username;
    policy_id = text "policy-" ++ token_str;
  }

  abbrev pub new_token : Text → Text → ℕ → Token
  new_token token_str username now = record {
    id = token_str;
    username = username;
    created_at = now;
  }

  -- the three writes that both handlers end with: a failure leaves what was written before it
  unfoldable pub issue : Text → ℕ → Text → Rule → Handler (AppState B) Token
  issue token_str now username rule = do
    storing B (put_policy B (new_policy token_str rule))
    storing B (put_binding B (new_binding token_str username))
    storing B (put_token B (new_token token_str username now))
    finish (new_token token_str username now)

  unfoldable pub token_create_handler :
      Text → ℕ → Token → TokenCreateRequest → Handler (AppState B) Token
  unfolding issue
  token_create_handler token_str now t req = do
    guard forbidden (may_tokens Verb.create t)
    issue token_str now req.username (record {
      verbs = req.verbs;
      resources = req.resources;
      resource_names = req.resource_names;
    })

  -- `query` is the parameter `id` of the URL
  unfoldable pub token_delete_handler : Token → Option Text → Handler (AppState B) (Unit {0})
  token_delete_handler t query = do
    guard forbidden (may_tokens Verb.delete t)
    id ← expect bad_request query
    storing B (delete B (text "tokens") id)

  abbrev pub is_admin_token : Store B → Token → Bool
  is_admin_token s t = t.username == text "admin" && can B s t.username Verb.all Resource.all none

  -- the first token of the subject "admin", if that subject may still do everything; else a new one
  abbrev pub reuse : Text → ℕ → Option Token → Handler (AppState B) Token
  reuse token_str now (some t) = finish t
  reuse token_str now none =
      issue token_str now (text "admin")
        (record { verbs = Verb.all ∷ []; resources = Resource.all ∷ []; resource_names = none })

  unfoldable pub token_exchange_handler : Text → ℕ → Handler (AppState B) Token
  unfolding issue
  token_exchange_handler token_str now = do
    tokens ← reading B list_tokens
    λ state. reuse token_str now (find (is_admin_token state.store) tokens) state
