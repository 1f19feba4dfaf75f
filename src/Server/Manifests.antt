-- ===== src/Server/Manifests.antt =====
-- The handlers of binaries/r4a-server/src/main.rs for manifests. `trim` is `str::trim`, which follows
-- the Unicode tables. The map that a list is collected into holds the last manifest of a name.
pub mod Names
use rust4eska.Prelude.{
  Text, text, text_eq, nat_eq, Option, none, some, List, [], ◌∷◌, Result, ok, err, Bool, true,
  false, not, ◌&&◌, ◌||◌, ◌==◌, if◌then◌else◌, filter, insert, contains, is_empty, nat_beq,
}
use rust4eska.Models.{Verb, Resource, Manifest, Token}
use rust4eska.Backend.{Backend}
use rust4eska.Store.{Store, delete}
use rust4eska.Store.Entities.{list_manifests, put_manifest, delete_manifest}
use rust4eska.Store.Rbac.{can}
use rust4eska.Server.{AppState}
use rust4eska.Server.Auth.{Auth, token, secret}
use rust4eska.Server.Reply.{
  Handler, done, failed, forbidden, bad_request, finish, guard, reading, storing, ◌>>=◌, ◌>>◌,
}

-- collecting in order; an entry of a name that comes again replaces the one before
abbrev collect_onto : List (Text × Manifest) → List Manifest → List (Text × Manifest)
collect_onto found [] = found
collect_onto found (m ∷ ms) = collect_onto (insert m.app.name m found) ms

-- whether a manifest is for a node
abbrev pub selects : Text → Manifest → Bool
selects node_name m = m.app.node_selector == node_name || m.app.node_selector == text "all"

unfoldable pub manifests_for : Option Text → List Manifest → List (Text × Manifest)
manifests_for none manifests = collect_onto [] manifests
manifests_for (some node_name) manifests = collect_onto [] (filter (selects node_name) manifests)

-- `name.contains("..")`
abbrev pub has_two_dots : Text → Bool
has_two_dots [] = false
has_two_dots (c ∷ []) = false
has_two_dots (c ∷ d ∷ s) = nat_beq c b'.' && nat_beq d b'.' || has_two_dots (d ∷ s)

-- the test on the trimmed name
unfoldable pub is_manifest_name : Text → Bool
is_manifest_name name = not (is_empty name || contains name b'/' || has_two_dots name)

module _ (B : Backend) where
  abbrev pub may_manifests : Verb → Token → AppState B → Bool
  may_manifests verb t state = can B state.store t.username verb Resource.manifests none

  abbrev pub may_read : Auth → AppState B → Bool
  may_read secret state = true
  may_read (token t) state = may_manifests Verb.get t state

  unfoldable pub manifests_handler :
      Auth → Option Text → Handler (AppState B) (List (Text × Manifest))
  unfolding list_manifests manifests_for
  manifests_handler auth node = do
    guard forbidden (may_read auth)
    manifests ← reading B (list_manifests B)
    finish (manifests_for node manifests)

  unfoldable pub manifest_upsert_handler :
      (Text → Text) → Token → Manifest → Handler (AppState B) (Unit {0})
  unfolding is_manifest_name
  manifest_upsert_handler trim t manifest = do
    guard forbidden
        (λ state. may_manifests Verb.create t state || may_manifests Verb.update t state)
    guard bad_request (λ state. is_manifest_name (trim manifest.app.name))
    storing B (put_manifest B manifest)

  -- with the manifest of ClickHouse goes the master's configuration of the logs
  abbrev pub clear_logs : Text → Handler (AppState B) (Unit {0})
  clear_logs name =
      if name == text "clickhouse"
      then storing B (delete B (text "core") (text "logs_ch_config"))
      else finish tt

  unfoldable pub manifest_delete_handler : Token → Text → Handler (AppState B) (Unit {0})
  unfolding delete_manifest delete
  manifest_delete_handler t name = do
    guard forbidden (may_manifests Verb.delete t)
    storing B (delete_manifest B name)
    clear_logs name
