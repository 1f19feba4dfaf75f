-- ===== src/Tests/Tags.antt =====
-- The deletion of one of two tags of a manifest.
use rust4eska.Prelude.{
  ◌≡◌, ◌≢◌, refl, ap, sym, arith, Text, text, none, some, List, [], ◌∷◌, Result, ok, err, Error,
  true, all, eq_of_ok,
}
unfoldable use rust4eska.Prelude.{}
use mathlib.Core.Option
use rust4eska.Models.{Verb, Resource, ManifestRecord}
use rust4eska.Backend.{is_ok}
use rust4eska.Backend.Memory.{
  memory, lookup, without, entries, scanned, policy, plain, stored_manifest, Doc,
}
use rust4eska.Store.Entities.{get_bindings_for_subject, get_policy}
use rust4eska.Store.Rbac.{can}
use rust4eska.Images.{tag_key, tag_prefix, manifest_key}
use rust4eska.Images.Manifests.{meta_tree, resolve_manifest}
use rust4eska.Server.{AppState}
use rust4eska.Server.Reply.{done}
use rust4eska.Server.Registry.{parse_registry_delete_route}
use rust4eska.Server.Registry.Tags.{registry_repo_tag_delete_handler, delete_tag, drop_unreferenced}
use rust4eska.Server.Registry.Deleting.{resolve_manifest-other_tag, resolve_manifest-deleted_tag}
use rust4eska.Tests.Sample.{state, table, t1}

abbrev manifest : ManifestRecord
manifest = record {
  repo = text "web";
  digest = text "sha256:aa";
  media_type = text "application/json";
  size = 2;
  created_at = 9;
  body = text "{}";
}

abbrev tagged_state : AppState memory
tagged_state = record state {
  store = record state.store {
    db =
        (
          text "policies",
          text "p1",
          policy (record {
            id = text "p1";
            rules =
                record {
                  verbs = Verb.all ∷ [];
                  resources = Resource.registry ∷ [];
                  resource_names = none;
                }
                ∷ [];
          }),
        )
        ∷ (meta_tree, manifest_key (text "web") (text "sha256:aa"), stored_manifest manifest)
        ∷ (meta_tree, tag_key (text "web") (text "v1"), plain (text "sha256:aa"))
        ∷ (meta_tree, tag_key (text "web") (text "v2"), plain (text "sha256:aa"))
        ∷ table;
  };
}

routes : parse_registry_delete_route (text "/web/tags/v1") ≡ some (text "web", text "v1")
unfolding parse_registry_delete_route Option.bind
routes = refl

deletes_tag :
    (registry_repo_tag_delete_handler memory t1 (text "/web/tags/v1") tagged_state).0 ≡ done tt
unfolding registry_repo_tag_delete_handler delete_tag drop_unreferenced can get_bindings_for_subject
    get_policy lookup without entries scanned parse_registry_delete_route Option.bind
deletes_tag = refl

resolves : resolve_manifest memory (text "web") (text "v2") tagged_state.store.db ≡ ok manifest
unfolding resolve_manifest lookup
resolves = refl

v1≢v2 : text "v1" ≢ text "v2"
v1≢v2 e = ground arith

readable :
    (items : List (Result (Text × Doc)))
    → memory.db_scan meta_tree
        (tag_prefix (text "web"))
        (memory.db_remove meta_tree (tag_key (text "web") (text "v1")) tagged_state.store.db).1
      ≡ ok items
    → all is_ok items ≡ true
unfolding lookup without entries scanned
readable items e = ap (λ (l : List (Result (Text × Doc))). all is_ok l) (eq_of_ok (sym e))

resolve_manifest-other_tag_example :
    resolve_manifest memory
      (text "web")
      (text "v2")
      (registry_repo_tag_delete_handler memory t1 (text "/web/tags/v1") tagged_state).1.store.db
    ≡ ok manifest
resolve_manifest-other_tag_example =
    resolve_manifest-other_tag memory t1 (text "/web/tags/v1") (text "web") (text "v1") (text "v2")
      manifest tagged_state routes deletes_tag readable v1≢v2 refl resolves

resolve_manifest-deleted_tag_example :
    resolve_manifest memory
      (text "web")
      (text "v1")
      (registry_repo_tag_delete_handler memory t1 (text "/web/tags/v1") tagged_state).1.store.db
    ≡ err Error.not_found
resolve_manifest-deleted_tag_example =
    resolve_manifest-deleted_tag memory t1 (text "/web/tags/v1") (text "web") (text "v1")
      tagged_state routes deletes_tag refl
