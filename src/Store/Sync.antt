-- ===== src/Store/Sync.antt =====
-- Replication between masters: `sync_handler` of crates/r4a-store/src/lib.rs, which receives what
-- `broadcast_sync` sends. `constant_time_eq` is equality of bytes. The header is the bytes received,
-- `None` where it is missing; `to_str`, of the library for HTTP, is a parameter.
pub mod Refusals
pub mod Replication
use rust4eska.Prelude.{
  ◌≡◌, refl, Text, text_eq, Option, none, some, Result, ok, err, Bool, true, false, not, ◌&&◌, ◌==◌,
  if◌then◌else◌, is_empty, Exec,
}
use rust4eska.Backend.{Backend}
use rust4eska.Store.{Store, SyncRequest, is_sync_tree_allowed}

pub data Status : Type 0 where
  ok_200 unauthorized_401 forbidden_403 internal_error_500 : Status

-- the first test of the handler, on the header `X-R4A-Secret`
unfoldable pub is_auth : (Text → Option Text) → Text → Option Text → Bool
is_auth to_str secret none = false
is_auth to_str secret (some auth_header) = elim (to_str auth_header) [
  | none ↦ false
  | some auth_str ↦ not (is_empty secret) && auth_str == secret
]

module _ (B : Backend) where
  open B use {Db, db_open, db_insert, db_remove, db_flush}

  unfoldable pub apply_sync : SyncRequest B → Exec Db (Unit {0})
  apply_sync req =
      if req.delete then db_remove req.tree req.key else db_insert req.tree req.key req.value

  -- The write and, if it succeeded, the flush, whose result is dropped.
  abbrev after_write : Result (Unit {0}) × Db → Status × Db
  after_write (err e, db) = (internal_error_500, db)
  after_write (ok u, db) = (ok_200, (db_flush db).1)

  -- A tree that cannot be opened is passed over in silence.
  unfoldable pub sync_write : SyncRequest B → Db → Status × Db
  unfolding apply_sync
  sync_write req db = elim (db_open req.tree db) [
    | ok u ↦ after_write (apply_sync req db)
    | err e ↦ (ok_200, db)
  ]

  unfoldable pub sync_handler :
      (Text → Option Text) → Option Text → SyncRequest B → Store B → Status × Store B
  unfolding is_auth sync_write
  sync_handler to_str header req s =
      if not (is_auth to_str s.cluster_secret header)
      then (unauthorized_401, s)
      else if not (is_sync_tree_allowed req.tree)
      then (forbidden_403, s)
      else (let (status, db') = sync_write req s.db in (status, record s { db = db' }))
