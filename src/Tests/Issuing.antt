-- ===== src/Tests/Issuing.antt =====
-- Tokens and manifests that an administrator issues.
use rust4eska.Prelude.{
  ◌≡◌, ◌≢◌, ◌⊎◌, refl, Text, text, text_eq, nat_eq, none, some, true, false, ok, [], ◌∷◌, ◌&&◌,
  ◌==◌, contains, if◌then◌else◌,
}
unfoldable use rust4eska.Prelude.{strip_suffix}
use rust4eska.Models.{Verb, Resource, Rule, Token, Manifest}
use rust4eska.Backend.Memory.{
  memory, Table, Doc, policy, binding, token, manifest, entries, without,
}
use rust4eska.Backend.Memory
use rust4eska.Store.{delete, is_sync_tree_allowed}
use rust4eska.Store.Entities
use rust4eska.Store.Entries.{HasEntry}
use rust4eska.Store.Rbac.{can}
use rust4eska.Store.Rbac.Spec.{Granted}
use rust4eska.Server.{AppState}
use rust4eska.Server.Auth.{require_token}
use rust4eska.Server.Reply.{Handled, done, failed, forbidden, bad_request}
use rust4eska.Server.Tokens.{
  token_exchange_handler, TokenCreateRequest, token_create_handler, token_delete_handler,
  may_tokens,
}
use rust4eska.Server.Tokens.Grants.{token_create_handler-HasEntry, token_delete_handler-gone}
use rust4eska.Server.Tokens.Exchange.{token_exchange_handler-Granted}
use rust4eska.Server.Manifests.{manifest_upsert_handler, is_manifest_name, has_two_dots}
use rust4eska.Server.Manifests.Names.{
  may_upsert, manifest_upsert_handler-HasEntry, manifest_upsert_handler_refused,
}
use rust4eska.Tests.Sample.{state, store}

abbrev everything : Rule
everything = record { verbs = Verb.all ∷ []; resources = Resource.all ∷ []; resource_names = none }

abbrev admin_table : Table
admin_table =
    (text "policies", text "p", policy (record { id = text "p"; rules = everything ∷ [] }))
    ∷ (
      text "bindings",
      text "b",
      binding (record { id = text "b"; subject = text "admin"; policy_id = text "p" }),
    )
    ∷ []

abbrev office : AppState memory
office = record state { store = record store { db = admin_table } }

abbrev admin : Token
admin = record { id = text "root"; username = text "admin"; created_at = 1 }

abbrev request : TokenCreateRequest
request = record {
  username = text "bob";
  verbs = Verb.get ∷ [];
  resources = Resource.vault ∷ [];
  resource_names = none;
}

abbrev created : Handled Token × AppState memory
created = token_create_handler memory (text "beef") 9 admin request office

abbrev bob : Token
bob = record { id = text "beef"; username = text "bob"; created_at = 9 }

runs_create : created.0 ≡ done bob
unfolding token_create_handler Entities.put_policy Entities.put_binding Entities.put_token can
    Entities.get_bindings_for_subject Entities.get_policy entries without Memory.lookup strip_suffix
    is_sync_tree_allowed
runs_create = refl

token_create_handler-HasEntry_example :
    (may_tokens memory Verb.create admin office ≡ true)
    × (text "bob" ≡ text "bob")
    × (require_token memory created.1 (some (text "Bearer beef")) ≡ some bob)
    × ((id : Text) × (policy_id : Text) × HasEntry memory memory.policy_json
          (text "policies")
          policy_id
          created.1.store.db
          (record {
            id = policy_id;
            rules =
                record {
                  verbs = request.verbs;
                  resources = request.resources;
                  resource_names = request.resource_names;
                }
                ∷ [];
          })
        × HasEntry memory memory.binding_json
            (text "bindings")
            id
            created.1.store.db
            (record { id = id; subject = text "bob"; policy_id = policy_id }))
token_create_handler-HasEntry_example =
    token_create_handler-HasEntry memory (text "beef") 9 admin request office bob runs_create

runs_delete : (token_delete_handler memory admin (some (text "beef")) created.1).0 ≡ done tt
unfolding token_create_handler token_delete_handler delete Entities.put_policy Entities.put_binding
    Entities.put_token can Entities.get_bindings_for_subject Entities.get_policy entries without
    Memory.lookup strip_suffix is_sync_tree_allowed
runs_delete = refl

token_delete_handler-gone_example :
    (may_tokens memory Verb.delete admin created.1 ≡ true)
    × (require_token memory
          (token_delete_handler memory admin (some (text "beef")) created.1).1
          (some (text "Bearer beef"))
        ≢ some bob)
    × (memory.db_get
          (text "tokens")
          (text "beef")
          (token_delete_handler memory admin (some (text "beef")) created.1).1.store.db
        ≡ (if text "tokens" == text "tokens" && text "beef" == text "beef"
            then ok none
            else memory.db_get (text "tokens") (text "beef") created.1.store.db))
token_delete_handler-gone_example =
    token_delete_handler-gone memory admin (text "beef") created.1 bob (text "tokens") (text "beef")
      runs_delete

abbrev web : Text → Manifest
web name = record {
  app = record { name = name; node_selector = text "all" };
  container = none;
  systemd = none;
  ingress = none;
  env = [];
}

runs_upsert : (manifest_upsert_handler memory (λ s. s) admin (web (text "web")) office).0 ≡ done tt
unfolding manifest_upsert_handler Entities.put_manifest can Entities.get_bindings_for_subject
    Entities.get_policy entries without Memory.lookup strip_suffix is_sync_tree_allowed
runs_upsert = refl

manifest_upsert_handler-HasEntry_example :
    (may_upsert memory (λ s. s) admin (web (text "web")) office ≡ true)
    × (text "web" ≢ [])
    × (contains (text "web") b'/' ≡ false)
    × (has_two_dots (text "web") ≡ false)
    × HasEntry memory memory.manifest_json
        (text "manifests")
        (text "web")
        (manifest_upsert_handler memory (λ s. s) admin (web (text "web")) office).1.store.db
        (web (text "web"))
manifest_upsert_handler-HasEntry_example =
    manifest_upsert_handler-HasEntry memory (λ s. s) admin (web (text "web")) office runs_upsert

runs_climbing :
    (manifest_upsert_handler memory (λ s. s) admin (web (text "../web")) office).0
    ≡ failed bad_request
unfolding manifest_upsert_handler Entities.put_manifest can Entities.get_bindings_for_subject
    Entities.get_policy entries without Memory.lookup strip_suffix is_sync_tree_allowed
runs_climbing = refl

refuses_path :
    ((manifest_upsert_handler memory (λ s. s) admin (web (text "../web")) office).1 ≡ office)
    × (((bad_request ≡ forbidden)
          × (may_upsert memory (λ s. s) admin (web (text "../web")) office ≡ false))
        ⊎ ((bad_request ≡ bad_request) × (is_manifest_name (text "../web") ≡ false)))
refuses_path =
    manifest_upsert_handler_refused memory (λ s. s) admin (web (text "../web")) office bad_request
      runs_climbing (λ e. cc e)

-- "admin" may do everything already, but holds no token yet
abbrev exchanged : Handled Token × AppState memory
exchanged = token_exchange_handler memory (text "cafe") 9 office

runs_exchange : exchanged.0 ≡ done (record admin { id = text "cafe"; created_at = 9 })
unfolding token_exchange_handler Entities.put_policy Entities.put_binding Entities.put_token can
    Entities.get_bindings_for_subject Entities.get_policy entries without Memory.lookup strip_suffix
    is_sync_tree_allowed
runs_exchange = refl

-- the second time the token is reused
runs_exchange_again :
    token_exchange_handler memory (text "f00d") 10 exchanged.1
    ≡ (done (record admin { id = text "cafe"; created_at = 9 }), exchanged.1)
unfolding token_exchange_handler Entities.put_policy Entities.put_binding Entities.put_token can
    Entities.get_bindings_for_subject Entities.get_policy entries without Memory.lookup strip_suffix
    is_sync_tree_allowed
runs_exchange_again = refl

token_exchange_handler-Granted_example :
    (text "admin" ≡ text "admin")
    × Granted memory exchanged.1.store.db (text "admin") Verb.all Resource.all none
token_exchange_handler-Granted_example =
    token_exchange_handler-Granted memory (text "cafe") 9 office
      (record admin { id = text "cafe"; created_at = 9 }) runs_exchange
