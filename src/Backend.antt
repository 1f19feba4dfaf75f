-- ===== src/Backend.antt =====
-- What the program takes from sled (the embedded database) and serde_json (the format of what it
-- stores), and what it asks of the library for HTTP, as an interface with the documented behaviour that the theorems rely on. `Memory` meets
-- it.
pub mod Memory
use rust4eska.Prelude.{
  ℕ, ◌≡◌, Text, Option, none, some, List, Result, ok, err, Exec, Bool, true, false, ◌&&◌, ◌==◌,
  text_eq, if◌then◌else◌, In, all, starts_with,
}
use rust4eska.Models.{
  Token, Policy, Binding, Connection, PeerInfo, Manifest, VaultSecret, VaultConfig, KekDek, User,
  ManifestRecord, RegistryManifestRecord, MetricPoint,
}

-- `serde_json::to_vec` and `serde_json::from_slice` at a type with derived implementations.
pub record Json (Blob A : Type 0) : Type 0 where
  pub to_vec : A → Result Blob
  pub from_slice : Blob → Result A
  pub from_slice-to_vec : (a : A) (b : Blob) → to_vec a ≡ ok b → from_slice b ≡ ok a

abbrev pub is_ok {ℓ} : {A : Type ℓ} → Result A → Bool
is_ok (ok a) = true
is_ok (err e) = false

pub record Backend : Type 1 where
  pub Db : Type 0
  -- the byte strings that are stored
  pub Blob : Type 0
  -- `f32`
  pub Float : Type 0
  -- whether `db.open_tree(tree)` succeeds, which changes no entry
  pub db_open : Text → Db → Result (Unit {0})
  -- `db.open_tree(tree)?` and then the operation of the tree
  pub db_get : Text → Text → Db → Result (Option Blob)
  pub db_insert : Text → Text → Blob → Exec Db (Unit {0})
  pub db_remove : Text → Text → Exec Db (Unit {0})
  -- The entries of a tree; the iterator yields an error in place of an entry that it cannot read.
  pub db_iter : Text → Db → Result (List (Result (Text × Blob)))
  -- `db.flush_async().await`
  pub db_flush : Exec Db (Unit {0})
  -- `tree.scan_prefix(p)`: the entries whose keys start with `p`
  pub db_scan : Text → Text → Db → Result (List (Result (Text × Blob)))
  -- `tree.remove(k)?` where the value that was removed is wanted
  pub db_take : Text → Text → Exec Db (Option Blob)
  pub get-insert :
      (t k : Text) (v : Blob) (db : Db) (t' k' : Text)
      → (db_insert t k v db).0 ≡ ok tt
      → db_get t' k' (db_insert t k v db).1
        ≡ (if t == t' && k == k' then ok (some v) else db_get t' k' db)
  pub get-remove :
      (t k : Text) (db : Db) (t' k' : Text)
      → (db_remove t k db).0 ≡ ok tt
      → db_get t' k' (db_remove t k db).1
        ≡ (if t == t' && k == k' then ok none else db_get t' k' db)
  -- A write to one tree, successful or not, leaves the other trees alone.
  pub get-insert_ne :
      (t k : Text) (v : Blob) (db : Db) (t' k' : Text)
      → (t == t') ≡ false
      → db_get t' k' (db_insert t k v db).1 ≡ db_get t' k' db
  pub get-remove_ne :
      (t k : Text) (db : Db) (t' k' : Text)
      → (t == t') ≡ false
      → db_get t' k' (db_remove t k db).1 ≡ db_get t' k' db
  pub get-flush : (t k : Text) (db : Db) → db_get t k (db_flush db).1 ≡ db_get t k db
  -- An entry that the iterator yields is the one that is stored under its key.
  pub get_of_iter :
      (t k : Text) (v : Blob) (db : Db) (items : List (Result (Text × Blob)))
      → db_iter t db ≡ ok items
      → In (ok (k, v)) items
      → db_get t k db ≡ ok (some v)
  -- An iterator that yields no error yields every entry.
  pub iter_of_get :
      (t k : Text) (v : Blob) (db : Db) (items : List (Result (Text × Blob)))
      → db_iter t db ≡ ok items
      → all is_ok items ≡ true
      → db_get t k db ≡ ok (some v)
      → In (ok (k, v)) items
  pub get_of_scan :
      (t p k : Text) (v : Blob) (db : Db) (items : List (Result (Text × Blob)))
      → db_scan t p db ≡ ok items
      → In (ok (k, v)) items
      → (db_get t k db ≡ ok (some v)) × (starts_with k p ≡ true)
  pub scan_of_get :
      (t p k : Text) (v : Blob) (db : Db) (items : List (Result (Text × Blob)))
      → db_scan t p db ≡ ok items
      → all is_ok items ≡ true
      → db_get t k db ≡ ok (some v)
      → starts_with k p ≡ true
      → In (ok (k, v)) items
  pub take-remove :
      (t k : Text) (db : Db) (o : Option Blob)
      → (db_take t k db).0 ≡ ok o
      → (db_get t k db ≡ ok o)
        × ((db_remove t k db).0 ≡ ok tt)
        × ((db_take t k db).1 ≡ (db_remove t k db).1)
  -- The operation opens the tree first.
  pub open_of_get :
      (t k : Text) (db : Db) (o : Option Blob) → db_get t k db ≡ ok o → db_open t db ≡ ok tt
  -- whether a text is valid as the value of a header of HTTP
  pub is_header_value : Text → Bool
  -- texts that are stored as they are
  pub of_text : Text → Blob
  -- `String::from_utf8_lossy`
  pub to_text : Blob → Text
  pub to_text-of_text : (s : Text) → to_text (of_text s) ≡ s
  -- `String::from_utf8`
  pub read_text : Blob → Result Text
  pub read_text-of_text : (s : Text) → read_text (of_text s) ≡ ok s
  -- bytes that are stored as they are, and `to_vec` on what is stored
  pub of_bytes : List ℕ → Blob
  pub to_bytes : Blob → List ℕ
  pub to_bytes-of_bytes : (b : List ℕ) → to_bytes (of_bytes b) ≡ b
  -- whether the bytes are JSON in which `get("config_id")` finds nothing
  pub lacks_config_id : Blob → Bool
  pub token_json : Json Blob Token
  pub policy_json : Json Blob Policy
  pub binding_json : Json Blob Binding
  pub connection_json : Json Blob Connection
  pub manifest_json : Json Blob Manifest
  pub secret_json : Json Blob VaultSecret
  pub peers_json : Json Blob (List (Text × PeerInfo Float))
  pub vault_config_json : Json Blob VaultConfig
  pub kek_dek_json : Json Blob KekDek
  pub user_json : Json Blob User
  pub metric_json : Json Blob (MetricPoint Float)
  pub record_json : Json Blob ManifestRecord
  -- `from_slice` of a stored manifest at the type that has some of its fields, where the others go
  pub read_summary : Blob → Result RegistryManifestRecord
  pub read_summary-to_vec :
      (r : ManifestRecord) (b : Blob)
      → record_json.to_vec r ≡ ok b
      → read_summary b ≡ ok (record { size = r.size; created_at = r.created_at; body = r.body })
