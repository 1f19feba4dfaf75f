-- ===== src/Store/Vault.antt =====
-- The vault of the store, crates/r4a-store/src/lib.rs: `init_vault`, the vault's configurations and
-- its secrets. From outside come the random bytes (salts, keys, nonces), the fresh id and the time.
pub mod Keys
use rust4eska.Prelude.{
  ℕ, Text, text, text_eq, nat_eq, Option, none, some, List, [], ◌∷◌, ◌++◌, Result, ok, err, Error,
  Exec, pure, lift, reads, bind, Bool, true, false, ◌==◌, ◌>>=◌, ◌>>◌, if◌then◌else◌, starts_with,
  strip_prefix, insert, lookup, is_empty,
}
unfoldable use rust4eska.Prelude.{from_utf8}
use rust4eska.Models.{VaultSecret, VaultConfig, KekDek}
use rust4eska.Backend.{Backend}
use rust4eska.Crypto.{Crypto}
unfoldable use rust4eska.Crypto.{encrypt, decrypt, derive_key_simple}
use rust4eska.Store.{Store, on_db, put, delete, put_as, get_as, list_as}

abbrev pub full_key : Text → Text → Text
full_key config_id key = config_id ++ (b'/' ∷ key)

-- `str::trim_start_matches`: the text is cut at most once per character
abbrev pub trim_from : Text → Text → Text → Text
trim_from [] s prefix = s
trim_from (c ∷ fuel) s prefix = elim (strip_prefix s prefix) [
  | some rest ↦ trim_from fuel rest prefix
  | none ↦ s
]

unfoldable pub trim_start_matches : Text → Text → Text
trim_start_matches s prefix = trim_from s s prefix

module _ (B : Backend) where
  open B use {
    Blob, db_open, db_get, db_insert, db_iter, secret_json, vault_config_json, kek_dek_json,
  }

  unfoldable pub put_vault_config : VaultConfig → Exec (Store B) (Unit {0})
  unfolding put
  put_vault_config config = put_as B vault_config_json (text "vault_configs") config.id config

  unfoldable pub get_vault_configs : Store B → Result (List VaultConfig)
  get_vault_configs = list_as B vault_config_json (text "vault_configs")

  unfoldable pub put_vault_secret : VaultSecret → Exec (Store B) (Unit {0})
  put_vault_secret secret =
      put_as B secret_json (text "vault") (full_key secret.config_id secret.key) secret

  unfoldable pub get_vault_secret : Text → Text → Store B → Result (Option VaultSecret)
  get_vault_secret config_id key = get_as B secret_json (text "vault") (full_key config_id key)

  -- the loop over the entries; a key is the text that it is read as
  abbrev pub keys_under : Text → List (Result (Text × Blob)) → List Text
  keys_under prefix [] = []
  keys_under prefix (err e ∷ items) = keys_under prefix items
  keys_under prefix (ok (key, v) ∷ items) =
      let rest = keys_under prefix items in
      if starts_with key prefix then trim_start_matches key prefix ∷ rest else rest

  unfoldable pub list_vault_secrets : Text → Store B → Result (List Text)
  unfolding trim_start_matches
  list_vault_secrets config_id s =
      bind (db_iter (text "vault") s.db) λ items. ok (keys_under (full_key config_id []) items)

  unfoldable pub delete_vault_secret : Text → Text → Exec (Store B) (Unit {0})
  unfolding delete
  delete_vault_secret config_id key = delete B (text "vault") (full_key config_id key)

  abbrev expect_key : Option (List ℕ) → Result (List ℕ)
  expect_key (some dek) = ok dek
  expect_key none = err Error.not_found

  unfoldable pub decrypt_secret : Crypto → VaultSecret → Store B → Result Text
  decrypt_secret C secret s =
      bind (expect_key (lookup secret.config_id s.vault_keys))
        λ dek. bind (decrypt C dek secret.encrypted_value secret.nonce) from_utf8
