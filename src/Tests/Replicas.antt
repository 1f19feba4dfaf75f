-- ===== src/Tests/Replicas.antt =====
-- Replication between two masters.
use rust4eska.Prelude.{
  ◌≡◌, ◌≢◌, ◌↔◌, ◌⊎◌, Text, Option, all, leb, ltb, ◌&&◌, ◌∷◌, refl, text, none, some, false, inl,
  here, ok, [], ◌++◌, text_eq, nat_eq, if◌then◌else◌,
}
use rust4eska.Backend.Memory.{memory, Doc, plain}
use rust4eska.Store.{Store, SyncRequest, Message, put, delete, is_sync_tree_allowed}
use rust4eska.Store.Sync.{sync_handler, ok_200, unauthorized_401, forbidden_403}
use rust4eska.Store.Sync.Replication.{
  get-sync_handler_disallowed, put_outcome, delete_outcome, put_replicates, delete_replicates,
  put_request, delete_request, sent,
}
use rust4eska.Store.Sync.Refusals.{Reads, is_replicated, sync_handler_refuses}
use rust4eska.Tests.Sample.{store}

abbrev replica : Store memory
replica = record store { db = []; masters = [] }

abbrev web : Doc
web = plain (text "web")

abbrev core_request : SyncRequest memory
core_request = put_request memory (text "core") (text "k") web

abbrev put_message : Message memory
put_message = record {
  target = text "http://10.42.0.9:3501/api/store/sync";
  secret = text "s3cret";
  body = put_request memory (text "manifests") (text "web") web;
}

abbrev delete_message : Message memory
delete_message = record put_message { body = delete_request memory (text "tokens") (text "tok") }

-- reads a header of visible characters
abbrev to_str : Text → Option Text
to_str bytes = if all (λ b. leb 32 b && ltb b 127) bytes then some bytes else none

core_disallowed : is_sync_tree_allowed (text "core") ≡ false
unfolding is_sync_tree_allowed
core_disallowed = refl

sync_handler_refuses_example :
    ((sync_handler memory to_str (some (text "s3cret")) core_request store
        ≡ (unauthorized_401, store))
      ↔ ((text "s3cret" ≡ []) ⊎ ¬ Reads to_str (some (text "s3cret")) (text "s3cret")))
    × ((sync_handler memory to_str (some (text "s3cret")) core_request store
          ≡ (forbidden_403, store))
        ↔ ((text "s3cret" ≢ [])
            × Reads to_str (some (text "s3cret")) (text "s3cret")
            × (is_replicated (text "core") ≡ false)))
sync_handler_refuses_example =
    sync_handler_refuses memory to_str (some (text "s3cret")) core_request store

-- the second case, at this request
core_forbidden :
    sync_handler memory to_str (some (text "s3cret")) core_request store ≡ (forbidden_403, store)
unfolding is_replicated
core_forbidden =
    (sync_handler_refuses memory to_str (some (text "s3cret")) core_request store).1.1
      ((λ e. cc e), (text "s3cret", refl, refl), refl)

get-sync_handler_disallowed_example :
    memory.db_get
      (text "core")
      (text "k")
      (sync_handler memory to_str (some (text "s3cret")) core_request store).1.db
    ≡ memory.db_get (text "core") (text "k") store.db
get-sync_handler_disallowed_example =
    get-sync_handler_disallowed memory to_str (some (text "s3cret")) core_request store
      (text "core") (text "k") core_disallowed

put_ok : (put memory (text "manifests") (text "web") web store).0 ≡ ok tt
unfolding put is_sync_tree_allowed
put_ok = refl

put_outcome_example :
    (memory.db_get
        (text "manifests")
        (text "web")
        (put memory (text "manifests") (text "web") web store).1.db
      ≡ ok (some web))
    × ((put memory (text "manifests") (text "web") web store).1.outbox
        ≡ [] ++ sent memory (text "manifests") put_message.body store)
put_outcome_example =
    put_outcome memory (text "manifests") (text "web") web store (text "manifests") (text "web")
      put_ok

delete_ok : (delete memory (text "tokens") (text "tok") store).0 ≡ ok tt
unfolding delete is_sync_tree_allowed
delete_ok = refl

delete_outcome_example :
    (memory.db_get
        (text "tokens")
        (text "tok")
        (delete memory (text "tokens") (text "tok") store).1.db
      ≡ ok none)
    × ((delete memory (text "tokens") (text "tok") store).1.outbox
        ≡ [] ++ sent memory (text "tokens") delete_message.body store)
delete_outcome_example =
    delete_outcome memory (text "tokens") (text "tok") store (text "tokens") (text "tok") delete_ok

put_sends :
    (put memory (text "manifests") (text "web") web store).1.outbox
    ≡ store.outbox ++ put_message ∷ []
unfolding put is_sync_tree_allowed
put_sends = refl

delete_sends :
    (delete memory (text "tokens") (text "tok") store).1.outbox
    ≡ store.outbox ++ delete_message ∷ []
unfolding delete is_sync_tree_allowed
delete_sends = refl

put_replicates_example :
    ((sync_handler memory to_str (some (text "s3cret")) put_message.body replica).0 ≡ ok_200)
    × (memory.db_get
          (text "manifests")
          (text "web")
          (sync_handler memory to_str (some (text "s3cret")) put_message.body replica).1.db
        ≡ memory.db_get
            (text "manifests")
            (text "web")
            (put memory (text "manifests") (text "web") web store).1.db)
put_replicates_example =
    put_replicates memory to_str (text "manifests") (text "web") store replica (put_message ∷ [])
      put_message here refl (λ e. cc e) refl refl web put_ok put_sends refl (text "manifests")
      (text "web") (inl refl)

delete_replicates_example :
    ((sync_handler memory to_str (some (text "s3cret")) delete_message.body replica).0 ≡ ok_200)
    × (memory.db_get
          (text "tokens")
          (text "tok")
          (sync_handler memory to_str (some (text "s3cret")) delete_message.body replica).1.db
        ≡ memory.db_get
            (text "tokens")
            (text "tok")
            (delete memory (text "tokens") (text "tok") store).1.db)
delete_replicates_example =
    delete_replicates memory to_str (text "tokens") (text "tok") store replica (delete_message ∷ [])
      delete_message here refl (λ e. cc e) refl refl delete_ok delete_sends refl (text "tokens")
      (text "tok") (inl refl)
