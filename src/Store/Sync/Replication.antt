-- ===== src/Store/Sync/Replication.antt =====
-- What `put` and `delete` of crates/r4a-store/src/lib.rs send, that it brings a replica to the same
-- entry, and which trees `sync_handler` leaves alone.
use rust4eska.Prelude.{
  ◌≡◌, ◌≢◌, ◌∙◌, sym, subst, ap, ◌∷◌, refl, map, text, ◌⊎◌, inl, inr, Text, text_eq, nat_eq, Option,
  none, some, List, [], ◌++◌, ok, true, false, ◌&&◌, ◌==◌, if◌then◌else◌, In, In-cons, arith,
  list_beq_iff, Bool-cases,
}
use mathlib.Core.List.{append-nil, append_cancel_left}
use rust4eska.Backend.{Backend}
use rust4eska.Store.{Store, SyncRequest, Message, is_sync_tree_allowed, put, delete, messages}
use rust4eska.Store.Sync.{ok_200, is_auth, sync_handler, sync_write, apply_sync}
use rust4eska.Store.Sync.Refusals.{is_replicated, is_auth_iff, is_sync_tree_allowed-is_replicated}

module _ (B : Backend) where
  open B use {Db, Blob, db_get, db_open, db_insert, db_remove, db_flush, of_text}

  get-apply_sync_ne :
      (req : SyncRequest B) (db : Db) (t k : Text)
      → (req.tree == t) ≡ false
      → db_get t k (apply_sync B req db).1 ≡ db_get t k db
  unfolding apply_sync
  get-apply_sync_ne req db t k h = elim (Bool-cases req.delete) [
    | inl e ↦ rw (e, apply_sync) (B.get-remove_ne req.tree req.key db t k h)
    | inr e ↦ rw (e, apply_sync) (B.get-insert_ne req.tree req.key req.value db t k h)
  ]

  get-sync_write_ne :
      (req : SyncRequest B) (db : Db) (t k : Text)
      → (req.tree == t) ≡ false
      → db_get t k (sync_write B req db).1 ≡ db_get t k db
  unfolding sync_write
  get-sync_write_ne req db t k h =
      ground (arith, get-apply_sync_ne req db t k h, B.get-flush t k (apply_sync B req db).1)

  -- Whatever the request and its header, no entry of a tree that is not on the list changes.
  pub get-sync_handler_disallowed :
      (to_str : Text → Option Text) (header : Option Text) (req : SyncRequest B) (s : Store B)
      (t k : Text)
      → is_sync_tree_allowed t ≡ false
      → db_get t k (sync_handler B to_str header req s).1.db ≡ db_get t k s.db
  unfolding sync_handler
  get-sync_handler_disallowed to_str header req s t k h =
      ground (arith, get-sync_write_ne req s.db t k, list_beq_iff req.tree t)

  -- a request as it is sent to each of the masters
  abbrev pub to_each : List Text → Text → SyncRequest B → List (Message B)
  to_each ips secret req =
      map
        (λ ip. record {
          target = text "http://" ++ ip ++ text ":3501/api/store/sync";
          secret = secret;
          body = req;
        })
        ips

  messages-to_each :
      (ips : List Text) (secret : Text) (req : SyncRequest B)
      → messages B ips secret req ≡ to_each ips secret req
  messages-to_each [] secret req = refl
  messages-to_each (ip ∷ ips) secret req = rw (messages-to_each ips secret req) refl

  -- what a write to a tree sends
  abbrev pub sent : Text → SyncRequest B → Store B → List (Message B)
  sent tree req s = if is_replicated tree then to_each s.masters s.cluster_secret req else []

  In-to_each :
      (ips : List Text) (secret : Text) (req : SyncRequest B) (m : Message B)
      → In m (to_each ips secret req)
      → (m.secret ≡ secret) × (m.body ≡ req)
  In-to_each [] secret req m i = elim i [ ]
  In-to_each (ip ∷ ips) secret req m i = elim (In-cons i) [
    | inl e ↦ (ap (λ (x : Message B). x.secret) e, ap (λ (x : Message B). x.body) e)
    | inr j ↦ In-to_each ips secret req m j
  ]

  In-sent :
      (tree : Text) (req : SyncRequest B) (s : Store B) (m : Message B)
      → In m (sent tree req s)
      → (m.secret ≡ s.cluster_secret) × (m.body ≡ req) × (is_replicated tree ≡ true)
  In-sent tree req s m i = elim (Bool-cases (is_replicated tree)) [
    | inl e ↦ let (a, b) = In-to_each s.masters s.cluster_secret req m (rw e at i) in (a, b, e)
    | inr e ↦ elim (rw e at i) [ ]
  ]

  -- what a handled request with the secret, for a tree on the list, makes of the database
  sync_handler_accepts :
      (to_str : Text → Option Text) (secret : Text) (req : SyncRequest B) (r : Store B) (t k : Text)
      → r.cluster_secret ≡ secret
      → secret ≢ []
      → to_str secret ≡ some secret
      → is_replicated req.tree ≡ true
      → db_open req.tree r.db ≡ ok tt
      → (apply_sync B req r.db).0 ≡ ok tt
      → ((sync_handler B to_str (some secret) req r).0 ≡ ok_200)
        × (db_get t k (sync_handler B to_str (some secret) req r).1.db
            ≡ db_get t k (apply_sync B req r.db).1)
  unfolding sync_handler
  sync_handler_accepts to_str secret req r t k e n v a o w =
      let known : is_auth to_str r.cluster_secret (some secret) ≡ true =
        rw e ((is_auth_iff to_str secret (some secret)).1 (n, (secret, refl, v))) in
      let listed : is_sync_tree_allowed req.tree ≡ true =
        is_sync_tree_allowed-is_replicated req.tree ∙ a in
      (
        ground (arith, known, listed),
        ground (arith, known, listed, B.get-flush t k (apply_sync B req r.db).1),
      )

  -- the request that `put` broadcasts
  abbrev pub put_request : Text → Text → Blob → SyncRequest B
  put_request tree key value = record { tree = tree; key = key; value = value; delete = false }

  abbrev pub delete_request : Text → Text → SyncRequest B
  delete_request tree key = record { tree = tree; key = key; value = of_text []; delete = true }

  sent_lem :
      (tree : Text) (req : SyncRequest B) (s : Store B)
      → (if is_sync_tree_allowed tree
          then s.outbox ++ messages B s.masters s.cluster_secret req
          else s.outbox)
        ≡ s.outbox ++ sent tree req s
  sent_lem tree req s =
      rw (is_sync_tree_allowed-is_replicated tree, messages-to_each s.masters s.cluster_secret req)
        (elim (Bool-cases (is_replicated tree)) [
          | inl e ↦ rw e refl
          | inr e ↦ rw e (sym (append-nil s.outbox))
        ])

  -- A successful `put` stores the value under its key, changes no other entry, and appends to the
  -- messages to be sent, for each of the masters in their order, the one that has the cluster secret
  -- and the key with its value, not marked for deletion, exactly if the tree is one of the six that
  -- are replicated; else none.
  pub put_outcome :
      (tree key : Text) (value : Blob) (s : Store B) (t k : Text)
      → (put B tree key value s).0 ≡ ok tt
      → (db_get t k (put B tree key value s).1.db
          ≡ (if tree == t && key == k then ok (some value) else db_get t k s.db))
        × ((put B tree key value s).1.outbox ≡ s.outbox ++ sent tree (put_request tree key value) s)
  unfolding put
  put_outcome tree key value s t k h =
      let stored = (db_insert tree key value s.db).1 in
      (
        ground (arith, B.get-insert tree key value s.db t k, B.get-flush t k stored),
        ground (arith, sent_lem tree (put_request tree key value) s),
      )

  -- A successful `delete` removes the entry under its key, changes no other entry, and appends to the
  -- messages to be sent, for each of the masters in their order, the one that has the cluster secret
  -- and the key, marked for deletion, exactly if the tree is one of the six that are replicated; else
  -- none.
  pub delete_outcome :
      (tree key : Text) (s : Store B) (t k : Text)
      → (delete B tree key s).0 ≡ ok tt
      → (db_get t k (delete B tree key s).1.db
          ≡ (if tree == t && key == k then ok none else db_get t k s.db))
        × ((delete B tree key s).1.outbox ≡ s.outbox ++ sent tree (delete_request tree key) s)
  unfolding delete
  delete_outcome tree key s t k h =
      let removed = (db_remove tree key s.db).1 in
      (
        ground (arith, B.get-remove tree key s.db t k, B.get-flush t k removed),
        ground (arith, sent_lem tree (delete_request tree key) s),
      )

  module _ (to_str : Text → Option Text) (tree key : Text) (s r : Store B)
      (added : List (Message B)) (m : Message B) (is_added : In m added)
      (same_secret : r.cluster_secret ≡ s.cluster_secret) (secret_set : s.cluster_secret ≢ [])
      (readable : to_str s.cluster_secret ≡ some s.cluster_secret)
      (opens : db_open tree r.db ≡ ok tt) where
    -- Take a message that a successful `put` adds to those to be sent. Let the replica have the
    -- sender's secret, which is not empty and can be read back from a header, and let the tree open
    -- and the write succeed there. A replica that handles the message, the secret being its header,
    -- answers 200, and agrees with the sender at the entry written and at every entry at which they
    -- agreed before.
    pub put_replicates :
        (value : Blob)
        → (put B tree key value s).0 ≡ ok tt
        → (put B tree key value s).1.outbox ≡ s.outbox ++ added
        → (db_insert tree key value r.db).0 ≡ ok tt
        → (t k : Text) → ((tree == t && key == k) ≡ true) ⊎ (db_get t k r.db ≡ db_get t k s.db)
        → ((sync_handler B to_str (some m.secret) m.body r).0 ≡ ok_200)
          × (db_get t k (sync_handler B to_str (some m.secret) m.body r).1.db
              ≡ db_get t k (put B tree key value s).1.db)
    unfolding apply_sync
    put_replicates value h adds w t k agree =
        let req : SyncRequest B = put_request tree key value in
        let outcome = put_outcome tree key value s t k h in
        let (e, b, a) = In-sent tree req s m (
          subst (λ ms. In m ms)
            (append_cancel_left s.outbox added (sent tree req s) (sym adds ∙ outcome.1))
            is_added) in
        let done =
          sync_handler_accepts to_str s.cluster_secret req r t k same_secret secret_set readable a
            opens w in
        rw (e, b)
          (done.0, ground (arith, done.1, outcome.0, B.get-insert tree key value r.db t k w))

    -- Deletions replicate as well: take a message that a successful `delete` adds to those to be sent.
    -- Let the replica have the sender's secret, which is not empty and can be read back from a header,
    -- and let the tree open and the removal succeed there. A replica that handles the message, the
    -- secret being its header, answers 200, and agrees with the sender at the entry deleted and at
    -- every entry at which they agreed before.
    pub delete_replicates :
        (delete B tree key s).0 ≡ ok tt
        → (delete B tree key s).1.outbox ≡ s.outbox ++ added
        → (db_remove tree key r.db).0 ≡ ok tt
        → (t k : Text) → ((tree == t && key == k) ≡ true) ⊎ (db_get t k r.db ≡ db_get t k s.db)
        → ((sync_handler B to_str (some m.secret) m.body r).0 ≡ ok_200)
          × (db_get t k (sync_handler B to_str (some m.secret) m.body r).1.db
              ≡ db_get t k (delete B tree key s).1.db)
    unfolding apply_sync
    delete_replicates h adds w t k agree =
        let req : SyncRequest B = delete_request tree key in
        let outcome = delete_outcome tree key s t k h in
        let (e, b, a) = In-sent tree req s m (
          subst (λ ms. In m ms)
            (append_cancel_left s.outbox added (sent tree req s) (sym adds ∙ outcome.1))
            is_added) in
        let done =
          sync_handler_accepts to_str s.cluster_secret req r t k same_secret secret_set readable a
            opens w in
        rw (e, b) (done.0, ground (arith, done.1, outcome.0, B.get-remove tree key r.db t k w))
