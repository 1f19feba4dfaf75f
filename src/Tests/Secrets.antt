-- ===== src/Tests/Secrets.antt =====
-- The vault and its secrets.
unfoldable use rust4eska.Prelude.{from_utf8}
use rust4eska.Prelude.{◌≡◌, refl, Text, text, none, some, true, List, [], ◌∷◌, ok, lookup}
use rust4eska.Models.{Verb, Resource}
use rust4eska.Backend.Memory.{memory, without, entries, policy, binding}
unfoldable use rust4eska.Backend.Memory.{lookup as stored}
unfoldable use rust4eska.Crypto.{encrypt}
use rust4eska.Crypto.Toy.{toy}
use rust4eska.Store.{Store, put, is_sync_tree_allowed}
use rust4eska.Store.Entities.{get_bindings_for_subject, get_policy}
use rust4eska.Store.Rbac.{can}
use rust4eska.Store.Vault.{list_vault_secrets, put_vault_secret}
use rust4eska.Store.Vault.Keys.{Draws, set_secret}
use rust4eska.Server.{AppState}
use rust4eska.Server.Reply.{done}
use rust4eska.Server.Vault.{VaultSetRequest, vault_set_handler, vault_get_handler}
use rust4eska.Server.Vault.Secrets.{vault_get_handler-vault_set_handler}
use rust4eska.Tests.Sample.{state, t1}

abbrev draws : Draws
draws = record { salt = text "salt"; dek = text "dek1"; nonce = text "n1"; nonce_for = λ k. k }

-- a master that knows its secret and grants alice everything in the vault
abbrev ready : AppState memory
ready = record state {
  store = set_secret memory toy 5 draws (text "s3cret") (record state.store {
    db =
        (
          text "policies",
          text "p2",
          policy (record {
            id = text "p2";
            rules =
                record {
                  verbs = Verb.all ∷ [];
                  resources = Resource.vault ∷ [];
                  resource_names = none;
                }
                ∷ [];
          }),
        )
        ∷ (
          text "bindings",
          text "b2",
          binding (record { id = text "b2"; subject = text "alice"; policy_id = text "p2" }),
        )
        ∷ [];
  });
}

-- The first start makes a key for the default configuration.
has_key : lookup (text "default") ready.store.vault_keys ≡ some (text "dek1")
unfolding set_secret without entries stored
has_key = refl

abbrev request : VaultSetRequest
request = record { config_id = text "default"; key = text "db"; value = text "hunter2" }

abbrev query : List (Text × Text)
query = (text "config_id", text "default") ∷ (text "key", text "db") ∷ []

sets : (vault_set_handler memory toy (text "n2") 6 t1 request ready).0 ≡ done tt
unfolding set_secret without entries stored vault_set_handler can get_bindings_for_subject
    get_policy encrypt put_vault_secret put is_sync_tree_allowed
sets = refl

may_read :
    can memory
      (vault_set_handler memory toy (text "n2") 6 t1 request ready).1.store
      (text "alice")
      Verb.get
      Resource.vault
      (some (text "default/db"))
    ≡ true
unfolding set_secret without entries stored vault_set_handler can get_bindings_for_subject
    get_policy encrypt put_vault_secret put is_sync_tree_allowed
may_read = refl

is_text : from_utf8 (text "hunter2") ≡ ok (text "hunter2")
unfolding from_utf8
is_text = refl

vault_get_handler-vault_set_handler_example :
    vault_get_handler memory toy t1 query
      (vault_set_handler memory toy (text "n2") 6 t1 request ready).1
    ≡ (done (text "hunter2"), (vault_set_handler memory toy (text "n2") 6 t1 request ready).1)
vault_get_handler-vault_set_handler_example =
    vault_get_handler-vault_set_handler memory toy (text "n2") 6 t1 t1 request query ready is_text
      refl refl sets may_read

-- A start with another secret finds no key that it can open and puts a new one in its place, so that
-- a start with the first secret again has not got the old key.
loses_key :
    lookup
      (text "default")
      (set_secret memory toy 8
        (record draws { dek = text "dek3" })
        (text "s3cret")
        (set_secret memory toy 7
          (record draws { dek = text "dek2" })
          (text "other")
          ready.store)).vault_keys
    ≡ some (text "dek3")
unfolding set_secret without entries stored
loses_key = refl

-- The prefix is cut off again and again, so that a key of configuration `a` that starts with `a/` is
-- listed as another key.
abbrev nested : Store memory
nested =
    (put_vault_secret memory
      (record {
        config_id = text "a";
        key = text "a/b";
        encrypted_value = [];
        nonce = [];
        updated_at = 7;
      })
      state.store).1

lists_other_key : list_vault_secrets memory (text "a") nested ≡ ok (text "b" ∷ [])
unfolding list_vault_secrets put_vault_secret put without entries stored is_sync_tree_allowed
lists_other_key = refl
