-- ===== src/Store.antt =====
-- crates/r4a-store/src/lib.rs: the replicated store. A method is an action of `Exec (Store B)`, or a
-- function of the store where it only reads. The locks of the source guard single fields and are
-- held by no method across another, so they leave no trace here. A task that `tokio::spawn` starts
-- to send a request is a message in `outbox`.
pub mod Entities
pub mod Entries
pub mod Sync
pub mod Rbac
pub mod Writes
pub mod Vault
pub mod Migration
use rust4eska.Prelude.{
  ℕ, ◌≡◌, Text, text, text_eq, Option, none, some, List, [], ◌∷◌, ◌++◌, Result, ok, err, Exec, pure,
  lift, bind, to_option, Bool, true, false, not, any, if◌then◌else◌, ◌==◌, ◌>>=◌, ◌>>◌,
}
use rust4eska.Models.{Token, Policy, Binding, Manifest}
use rust4eska.Backend.{Backend, Json}

pub record SyncRequest (B : Backend) : Type 0 where
  pub tree : Text
  pub key : Text
  pub value : B.Blob
  pub delete : Bool

-- A POST of a spawned task: the URL, the header `X-R4A-Secret` and the body.
pub record Message (B : Backend) : Type 0 where
  pub target : Text
  pub secret : Text
  pub body : SyncRequest B

pub record Store (B : Backend) : Type 0 where
  pub db : B.Db
  pub cluster_secret : Text
  pub vault_keys : List (Text × List ℕ)
  pub masters : List Text
  pub outbox : List (Message B)

abbrev pub allowed_sync_trees : List Text
allowed_sync_trees =
    text "tokens"
    ∷ text "bindings"
    ∷ text "policies"
    ∷ text "manifests"
    ∷ text "vault"
    ∷ text "vault_configs"
    ∷ []

unfoldable pub is_sync_tree_allowed : Text → Bool
is_sync_tree_allowed tree = any (λ t. t == tree) allowed_sync_trees

-- `if let Ok(a) = r { out.push(a) }`
abbrev pub keep : {A : Type 0} → Result A → List A → List A
keep (ok a) rest = a ∷ rest
keep (err e) rest = rest

module _ (B : Backend) where
  open B use {Db, Blob, db_get, db_insert, db_remove, db_iter, db_flush, of_text}

  unfoldable pub set_masters : List Text → Store B → Store B
  set_masters master_ips s = record s { masters = master_ips }

  abbrev pub on_db : {A : Type 0} → Exec Db A → Exec (Store B) A
  on_db m s = let (r, db') = m s.db in (r, record s { db = db' })

  abbrev pub messages : List Text → Text → SyncRequest B → List (Message B)
  messages [] secret req = []
  messages (master_ip ∷ ips) secret req =
      record {
        target = text "http://" ++ master_ip ++ text ":3501/api/store/sync";
        secret = secret;
        body = req;
      }
      ∷ messages ips secret req

  unfoldable pub broadcast_sync : SyncRequest B → Exec (Store B) (Unit {0})
  broadcast_sync req s =
      if not (is_sync_tree_allowed req.tree)
      then (ok tt, s)
      else (ok tt, record s { outbox = s.outbox ++ messages s.masters s.cluster_secret req })

  unfoldable pub put : Text → Text → Blob → Exec (Store B) (Unit {0})
  unfolding broadcast_sync
  put tree_name key value = do
    on_db (db_insert tree_name key value)
    on_db db_flush
    broadcast_sync (record { tree = tree_name; key = key; value = value; delete = false })

  unfoldable pub delete : Text → Text → Exec (Store B) (Unit {0})
  unfolding broadcast_sync
  delete tree_name key = do
    on_db (db_remove tree_name key)
    on_db db_flush
    broadcast_sync (record { tree = tree_name; key = key; value = of_text []; delete = true })

  unfoldable pub get : Text → Text → Store B → Result (Option Blob)
  get tree_name key s = db_get tree_name key s.db

  -- `to_vec` and then `put`, the body of the methods that store a value
  abbrev pub put_as : {A : Type 0} → Json Blob A → Text → Text → A → Exec (Store B) (Unit {0})
  put_as json tree key a = do value ← lift (json.to_vec a); put tree key value

  abbrev pub decode_found : {A : Type 0} → Json Blob A → Option Blob → Result (Option A)
  decode_found json none = ok none
  decode_found json (some bytes) = bind (json.from_slice bytes) (λ a. ok (some a))

  -- `get` and then `from_slice`, the body of the methods that read one back
  abbrev pub get_as : {A : Type 0} → Json Blob A → Text → Text → Store B → Result (Option A)
  get_as json tree key s = bind (get tree key s) (decode_found json)

  -- The entries of an iterator that can be read and decoded, in its order.
  abbrev pub decoded : {A : Type 0} → Json Blob A → List (Result (Text × Blob)) → List A
  decoded json [] = []
  decoded json (err e ∷ items) = decoded json items
  decoded json (ok (k, v) ∷ items) = keep (json.from_slice v) (decoded json items)

  abbrev pub list_as : {A : Type 0} → Json Blob A → Text → Store B → Result (List A)
  list_as json tree s = bind (db_iter tree s.db) (λ items. ok (decoded json items))
