-- ===== src/Server/Vault.antt =====
-- The handlers of binaries/r4a-server/src/main.rs for the vault. From outside come the nonce, the time
-- and what `create_vault_config` draws.
pub mod Secrets
use rust4eska.Prelude.{
  ℕ, Text, text, text_eq, nat_eq, Option, none, some, List, Result, ok, err, Bool, true, false,
  ◌==◌, lookup,
}
use rust4eska.Models.{Verb, Resource, Token, VaultSecret, VaultConfig}
use rust4eska.Backend.{Backend}
use rust4eska.Crypto.{Crypto}
unfoldable use rust4eska.Crypto.{encrypt}
use rust4eska.Store.Rbac.{can}
use rust4eska.Store.Vault.{
  full_key, put_vault_secret, get_vault_secret, list_vault_secrets, delete_vault_secret,
  decrypt_secret, get_vault_configs,
}
use rust4eska.Store.Vault.Keys.{Draws, create_vault_config}
use rust4eska.Server.{AppState}
use rust4eska.Server.Reply.{
  Handler, done, failed, forbidden, bad_request, not_found, finish, guard, expect, reading, storing,
  or_internal, ◌>>=◌, ◌>>◌,
}

pub record VaultSetRequest : Type 0 where
  pub config_id : Text
  pub key : Text
  pub value : Text

abbrev pub Query : Type 0
Query = List (Text × Text)

module _ (B : Backend) where
  abbrev pub may_vault : Verb → Option Text → Token → AppState B → Bool
  may_vault verb name t state = can B state.store t.username verb Resource.vault name

  module _ (C : Crypto) where
    abbrev pub secret_of : VaultSetRequest → ℕ → Text × Text → VaultSecret
    secret_of req now (encrypted_value, nonce) = record {
      config_id = req.config_id;
      key = req.key;
      encrypted_value = encrypted_value;
      nonce = nonce;
      updated_at = now;
    }

    unfoldable pub vault_set_handler :
        List ℕ → ℕ → Token → VaultSetRequest → Handler (AppState B) (Unit {0})
    vault_set_handler nonce now t req = do
      guard forbidden (may_vault Verb.create none t)
      dek ← (λ state. expect not_found (lookup req.config_id state.store.vault_keys) state)
      sealed ← reading B (λ store. encrypt C nonce dek req.value)
      storing B (put_vault_secret B (secret_of req now sealed))

    unfoldable pub vault_get_handler : Token → Query → Handler (AppState B) Text
    vault_get_handler t query = do
      config_id ← expect bad_request (lookup (text "config_id") query)
      key ← expect bad_request (lookup (text "key") query)
      guard forbidden (may_vault Verb.get (some (full_key config_id key)) t)
      found ← reading B (get_vault_secret B config_id key)
      secret ← expect not_found found
      reading B (decrypt_secret B C secret)

    unfoldable pub vault_config_create_handler :
        Text → ℕ → Draws → Token → Text → Handler (AppState B) VaultConfig
    vault_config_create_handler uuid now draws t name = do
      guard forbidden (may_vault Verb.create none t)
      storing B (create_vault_config B C uuid now draws name)

  unfoldable pub vault_delete_handler : Token → Query → Handler (AppState B) (Unit {0})
  vault_delete_handler t query = do
    guard forbidden (may_vault Verb.delete none t)
    config_id ← expect bad_request (lookup (text "config_id") query)
    key ← expect bad_request (lookup (text "key") query)
    storing B (delete_vault_secret B config_id key)

  abbrev config_or_default : Option Text → Text
  config_or_default (some config_id) = config_id
  config_or_default none = text "default"

  unfoldable pub vault_list_handler : Token → Query → Handler (AppState B) (List Text)
  vault_list_handler t query = do
    guard forbidden (may_vault Verb.list none t)
    reading B (list_vault_secrets B (config_or_default (lookup (text "config_id") query)))

  unfoldable pub vault_configs_list_handler : Token → Handler (AppState B) (List VaultConfig)
  vault_configs_list_handler t = do
    guard forbidden (may_vault Verb.list none t)
    reading B (get_vault_configs B)
