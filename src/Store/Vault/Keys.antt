-- ===== src/Store/Vault/Keys.antt =====
-- The keys of the vault, crates/r4a-store/src/lib.rs: `set_secret`, `init_vault` and the creation of a
-- configuration. Each configuration has a data key, kept in `vault_meta` under the master key.
use rust4eska.Prelude.{
  ℕ, Text, text, text_eq, nat_eq, Option, none, some, List, [], ◌∷◌, ◌++◌, Result, ok, err, Error,
  Exec, pure, lift, reads, to_option, ◌>>=◌, ◌>>◌, if◌then◌else◌, starts_with, insert, lookup,
  is_empty, nat_beq, length,
}
use rust4eska.Models.{VaultConfig, KekDek}
use rust4eska.Backend.{Backend}
use rust4eska.Crypto.{Crypto}
unfoldable use rust4eska.Crypto.{encrypt, decrypt, derive_key_simple}
use rust4eska.Store.{Store, on_db}
unfoldable use rust4eska.Store.Vault.{trim_start_matches, put_vault_config}

abbrev pub Keys : Type 0
Keys = List (Text × List ℕ)

-- What the generators of random numbers yield in a run: a salt, a data key with its nonce, and the
-- nonce for each entry that is encrypted again.
pub record Draws : Type 0 where
  pub salt : List ℕ
  pub dek : List ℕ
  pub nonce : List ℕ
  pub nonce_for : Text → List ℕ

-- A data key that was decrypted, with its record if that is to be encrypted again.
pub record Unlocked : Type 0 where
  pub config_id : Text
  pub dek : List ℕ
  pub stale : Option KekDek

abbrev pub default_config : ℕ → VaultConfig
default_config now = record { id = text "default"; name = text "Default"; created_at = now }

abbrev with_stale : Text → Option KekDek → List (Text × KekDek) → List (Text × KekDek)
with_stale tree_key none again = again
with_stale tree_key (some kek_dek) again = again ++ ((tree_key, kek_dek) ∷ [])

module _ (B : Backend) (C : Crypto) where
  open B use {
    Blob, db_open, db_get, db_insert, db_remove, db_iter, of_bytes, to_bytes, vault_config_json,
    kek_dek_json,
  }

  abbrev meta_insert : Text → KekDek → Exec (Store B) (Unit {0})
  meta_insert key kek_dek = do
    value ← lift (kek_dek_json.to_vec kek_dek)
    on_db B (db_insert (text "vault_meta") key value)

  -- its result is the map of keys with the new one
  unfoldable pub create_vault_config_internal :
      List ℕ → List ℕ → List ℕ → VaultConfig → Keys → Exec (Store B) Keys
  unfolding encrypt
  create_vault_config_internal dek nonce master_key config keys = do
    (encrypted_dek, nonce) ← lift (encrypt C nonce master_key dek)
    meta_insert (text "kek_dek_" ++ config.id)
        (record { config_id = config.id; encrypted_dek = encrypted_dek; nonce = nonce })
    value ← lift (vault_config_json.to_vec config)
    on_db B (db_insert (text "vault_configs") config.id value)
    pure (insert config.id dek keys)

  abbrev set_keys : Keys → Exec (Store B) (Unit {0})
  set_keys keys s = (ok tt, record s { vault_keys = keys })

  abbrev expect_salt : Option Blob → Result (List ℕ)
  expect_salt (some salt) = ok (to_bytes salt)
  expect_salt none = err Error.not_found

  unfoldable pub create_vault_config : Text → ℕ → Draws → Text → Exec (Store B) VaultConfig
  unfolding derive_key_simple create_vault_config_internal put_vault_config
  create_vault_config uuid now draws name = do
    found ← reads (λ s. db_get (text "vault_meta") (text "master_salt") s.db)
    salt ← lift (expect_salt found)
    master_key ← reads (λ s. derive_key_simple C s.cluster_secret salt)
    let config : VaultConfig = record { id = text "vault-" ++ uuid; name = name; created_at = now }
    keys ← reads (λ s. ok s.vault_keys)
    keys ← create_vault_config_internal draws.dek draws.nonce master_key config keys
    set_keys keys
    put_vault_config B config
    pure config

  abbrev salt_found : List ℕ → Option Blob → Exec (Store B) (List ℕ)
  salt_found drawn (some salt) = pure (to_bytes salt)
  salt_found drawn none = do
    on_db B (db_insert (text "vault_meta") (text "master_salt") (of_bytes drawn))
    pure drawn

  -- the migration of the one key of old, which has no `config_id`
  abbrev migrate_default : ℕ → Option Blob → Exec (Store B) (Unit {0})
  migrate_default now none = pure tt
  migrate_default now (some kek_dek_bytes) =
      if B.lacks_config_id kek_dek_bytes
      then (do
        legacy ← lift (kek_dek_json.from_slice kek_dek_bytes)
        value ← lift (vault_config_json.to_vec (default_config now))
        on_db B (db_insert (text "vault_configs") (text "default") value)
        meta_insert (text "kek_dek_default") (record legacy { config_id = text "default" })
        on_db B (db_remove (text "vault_meta") (text "kek_dek")))
      else pure tt

  abbrev by_legacy : Option (List ℕ) → KekDek → Option (List ℕ)
  by_legacy none kek_dek = none
  by_legacy (some legacy) kek_dek = to_option (decrypt C legacy kek_dek.encrypted_dek kek_dek.nonce)

  abbrev unlocked : List ℕ → Option (List ℕ) → Text → KekDek → Option Unlocked
  unlocked master legacy config_id kek_dek =
      elim (decrypt C master kek_dek.encrypted_dek kek_dek.nonce) [
        | ok dek ↦ some (record { config_id = config_id; dek = dek; stale = none })
        | err e ↦ elim (by_legacy legacy kek_dek) [
          | some dek ↦ some (record { config_id = config_id; dek = dek; stale = some kek_dek })
          | none ↦ none
        ]
      ]

  -- what the loop makes of an entry, `None` where it goes on
  unfoldable pub unlock : List ℕ → Option (List ℕ) → Text → Blob → Option Unlocked
  unfolding decrypt trim_start_matches
  unlock master legacy key value =
      if starts_with key (text "kek_dek_")
      then elim (kek_dek_json.from_slice value) [
        | ok kek_dek ↦ unlocked master legacy (trim_start_matches key (text "kek_dek_")) kek_dek
        | err e ↦ none
      ]
      else none

  -- The first loop. `copy_from_slice` panics at a data key that has not 32 bytes; the panic, which
  -- ends the caller, is an error here.
  unfoldable pub load_keys :
      List ℕ
      → Option (List ℕ)
      → List (Result (Text × Blob))
      → Keys
      → List (Text × KekDek)
      → Result (Keys × List (Text × KekDek))
  unfolding unlock
  load_keys master legacy [] keys again = ok (keys, again)
  load_keys master legacy (err e ∷ items) keys again = load_keys master legacy items keys again
  load_keys master legacy (ok (key, value) ∷ items) keys again =
      elim (unlock master legacy key value) [
        | some u ↦
            let rest =
              load_keys master legacy items (insert u.config_id u.dek keys)
                (with_stale key u.stale again) in
            if nat_beq (length u.dek) 32 then rest else err Error.external
        | none ↦ load_keys master legacy items keys again
      ]

  -- one turn of the second loop, which drops every failure
  abbrev reencrypt : Draws → List ℕ → Keys → Text → KekDek → Store B → Store B
  reencrypt draws master keys tree_key old s = elim (lookup old.config_id keys) [
    | none ↦ s
    | some dek ↦ elim (encrypt C (draws.nonce_for tree_key) master dek) [
      | err e ↦ s
      | ok (encrypted_dek, nonce) ↦
          (meta_insert tree_key
            (record { config_id = old.config_id; encrypted_dek = encrypted_dek; nonce = nonce })
            s).1
    ]
  ]

  unfoldable pub reencrypt_all : Draws → List ℕ → Keys → List (Text × KekDek) → Store B → Store B
  unfolding encrypt
  reencrypt_all draws master keys [] s = s
  reencrypt_all draws master keys ((tree_key, old) ∷ again) s =
      reencrypt_all draws master keys again (reencrypt draws master keys tree_key old s)

  abbrev or_default : ℕ → Draws → List ℕ → Keys → Exec (Store B) Keys
  or_default now draws master [] =
      create_vault_config_internal draws.dek draws.nonce master (default_config now) []
  or_default now draws master (key ∷ keys) = pure (key ∷ keys)

  abbrev keys_loaded : ℕ → Draws → List ℕ → Keys × List (Text × KekDek) → Exec (Store B) (Unit {0})
  keys_loaded now draws master (keys, again) = do
    (λ s. (ok tt, reencrypt_all draws master keys again s))
    keys ← or_default now draws master keys
    set_keys keys

  unfoldable pub init_vault : ℕ → Draws → Exec (Store B) (Unit {0})
  unfolding derive_key_simple load_keys reencrypt_all create_vault_config_internal
  init_vault now draws s =
      if is_empty s.cluster_secret
      then (ok tt, s)
      else (do
        found ← reads (λ s. db_get (text "vault_meta") (text "master_salt") s.db)
        salt ← salt_found draws.salt found
        master ← lift (derive_key_simple C s.cluster_secret salt)
        old ← reads (λ s. db_get (text "vault_meta") (text "kek_dek") s.db)
        migrate_default now old
        items ← reads (λ s. db_iter (text "vault_meta") s.db)
        let legacy = to_option (derive_key_simple C s.cluster_secret (text "r4a-master-salt-v1"))
        loaded ← lift (load_keys master legacy items [] [])
        keys_loaded now draws master loaded)
          s

  -- A failure of `init_vault` is only logged.
  unfoldable pub set_secret : ℕ → Draws → Text → Store B → Store B
  unfolding init_vault
  set_secret now draws secret s = (init_vault now draws (record s { cluster_secret = secret })).1
