-- ===== src/Store/Entities.antt =====
-- The methods of `Store` for the kinds of entries, crates/r4a-store/src/lib.rs.
use rust4eska.Prelude.{
  ℕ, Text, text, text_eq, Option, none, some, List, Result, ok, Exec, pure, lift, reads, bind,
  filter, Bool, true, false, ◌==◌, ◌>>=◌, ◌>>◌,
}
use mathlib.Core.Option
use rust4eska.Models.{Token, Policy, Binding, Manifest, Connection}
use rust4eska.Backend.{Backend}
use rust4eska.Store.{Store, on_db, put, delete, get, put_as, get_as, list_as}

module _ (B : Backend) where
  open B use {
    db_get, db_insert, db_remove, db_flush, of_text, to_text, token_json, policy_json, binding_json,
    manifest_json, connection_json,
  }

  unfoldable pub put_manifest : Manifest → Exec (Store B) (Unit {0})
  unfolding put
  put_manifest manifest = put_as B manifest_json (text "manifests") manifest.app.name manifest

  unfoldable pub list_manifests : Store B → Result (List Manifest)
  list_manifests = list_as B manifest_json (text "manifests")

  unfoldable pub delete_manifest : Text → Exec (Store B) (Unit {0})
  unfolding delete
  delete_manifest name = delete B (text "manifests") name

  unfoldable pub put_token : Token → Exec (Store B) (Unit {0})
  unfolding put
  put_token token = put_as B token_json (text "tokens") token.id token

  unfoldable pub get_token : Text → Store B → Result (Option Token)
  unfolding get
  get_token id = get_as B token_json (text "tokens") id

  unfoldable pub put_policy : Policy → Exec (Store B) (Unit {0})
  unfolding put
  put_policy policy = put_as B policy_json (text "policies") policy.id policy

  unfoldable pub get_policy : Text → Store B → Result (Option Policy)
  unfolding get
  get_policy id = get_as B policy_json (text "policies") id

  unfoldable pub put_binding : Binding → Exec (Store B) (Unit {0})
  unfolding put
  put_binding binding = put_as B binding_json (text "bindings") binding.id binding

  unfoldable pub get_binding : Text → Store B → Result (Option Binding)
  unfolding get
  get_binding id = get_as B binding_json (text "bindings") id

  unfoldable pub get_all_bindings : Store B → Result (List Binding)
  get_all_bindings = list_as B binding_json (text "bindings")

  unfoldable pub get_bindings_for_subject : Text → Store B → Result (List Binding)
  get_bindings_for_subject subject s =
      bind (list_as B binding_json (text "bindings") s)
        λ bindings. ok (filter (λ b. b.subject == subject) bindings)

  unfoldable pub get_policies : Store B → Result (List Policy)
  get_policies = list_as B policy_json (text "policies")

  -- Connections and labels are local to a master: they are written without a broadcast.
  abbrev put_local : Text → Text → B.Blob → Exec (Store B) (Unit {0})
  put_local tree key value = do on_db B (db_insert tree key value); on_db B db_flush

  unfoldable pub put_connection : Connection → Exec (Store B) (Unit {0})
  put_connection conn = do
    value ← lift (connection_json.to_vec conn)
    put_local (text "connections") conn.id value

  unfoldable pub get_connection : Text → Store B → Result (Option Connection)
  unfolding get
  get_connection id = get_as B connection_json (text "connections") id

  unfoldable pub list_connections : Store B → Result (List Connection)
  list_connections = list_as B connection_json (text "connections")

  unfoldable pub delete_connection : Text → Exec (Store B) (Unit {0})
  delete_connection id = do on_db B (db_remove (text "connections") id); on_db B db_flush

  -- the branch of `update_connection_heartbeat` on what the tree holds
  abbrev beat : Text → ℕ → Option Connection → Exec (Store B) Bool
  beat id now none = pure false
  beat id now (some conn) = do
    value ← lift (connection_json.to_vec (record conn { last_seen = now }))
    put_local (text "connections") id value
    pure true

  unfoldable pub update_connection_heartbeat : Text → ℕ → Exec (Store B) Bool
  unfolding get_connection
  update_connection_heartbeat id now = do found ← reads (get_connection id); beat id now found

  unfoldable pub get_label_ip : Text → Store B → Result (Option Text)
  get_label_ip label s =
      bind (db_get (text "connection_labels") label s.db) (λ found. ok (Option.map to_text found))

  unfoldable pub set_label_ip : Text → Text → Exec (Store B) (Unit {0})
  set_label_ip label vpn_ip = put_local (text "connection_labels") label (of_text vpn_ip)
