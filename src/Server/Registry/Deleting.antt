-- ===== src/Server/Registry/Deleting.antt =====
-- The deletion of a tag by binaries/r4a-server/src/main.rs, as who pulls from the image registry sees it.
use rust4eska.Prelude.{
  ◌≡◌, ◌≢◌, refl, ap, subst, sym, ◌∙◌, inl, inr, Text, text, text_eq, nat_eq, none, some, List,
  Result, Result-cases, ok, err, Error, Bool-cases, true, false, arith, all, starts_with,
}
use rust4eska.Models.{Verb, Token, ManifestRecord}
use rust4eska.Backend.{Backend, is_ok}
use rust4eska.Images.{tag_key, tag_prefix}
use rust4eska.Images.Manifests.{meta_tree, resolve_manifest}
use rust4eska.Server.{AppState}
use rust4eska.Server.Registry.{parse_registry_delete_route}
use rust4eska.Server.Registry.Tags.{may_registry, delete_tag, registry_repo_tag_delete_handler}
use rust4eska.Server.Registry.Untagging.{
  resolve_manifest-Pullable, Pullable-resolve_manifest, Untagged, delete_tag-Untagged, no_tag,
  Pullable-Untagged,
}
use rust4eska.Server.Reply.{Handled, done}

module _ (B : Backend) where
  -- the digest under which a handler that succeeds deletes the tag
  handler-delete_tag :
      (t : Token) (rest repo tag : Text) (state : AppState B)
      → parse_registry_delete_route rest ≡ some (repo, tag)
      → (registry_repo_tag_delete_handler B t rest state).0 ≡ done tt
      → (digest : Text) × (registry_repo_tag_delete_handler B t rest state
          ≡ delete_tag B repo tag digest state)
  unfolding registry_repo_tag_delete_handler
  handler-delete_tag t rest repo tag state route h =
      elim (Bool-cases (may_registry B Verb.delete t state)) [
        | inr q ↦ absurd (ground (arith, h, q))
        | inl q ↦ elim (Result-cases (B.db_get meta_tree (tag_key repo tag) state.store.db)) [
          | inl (e, g) ↦ absurd (ground (arith, h, q, route, g))
          | inr (none, g) ↦ absurd (ground (arith, h, q, route, g))
          | inr (some raw, g) ↦ elim (Result-cases (B.read_text raw)) [
            | inl (e, d) ↦ absurd (ground (arith, h, q, route, g, d))
            | inr (digest, d) ↦ (digest, ground (arith, q, route, g, d))
          ]
        ]
      ]

  handler-Untagged :
      (t : Token) (rest repo tag : Text) (state : AppState B)
      → parse_registry_delete_route rest ≡ some (repo, tag)
      → (registry_repo_tag_delete_handler B t rest state).0 ≡ done tt
      → (digest : Text) × Untagged B repo tag digest state.store.db
          (registry_repo_tag_delete_handler B t rest state).1.store.db
  handler-Untagged t rest repo tag state route h =
      let (digest, same) = handler-delete_tag t rest repo tag state route h in
      (
        digest,
        subst
            (λ (r : Handled (Unit {0}) × AppState B).
              Untagged B repo tag digest state.store.db r.1.store.db)
            (sym same)
            (delete_tag-Untagged B repo tag digest state
              (ap (λ (r : Handled (Unit {0}) × AppState B). r.0) (sym same) ∙ h)),
      )

  -- Deleting a tag takes no manifest from another tag: after a `registry_repo_tag_delete_handler` that
  -- answers 200 for a tag of a repository, every other tag of that repository that led
  -- `resolve_manifest` to a manifest leads it to the same one, provided that the tree can be read to
  -- its end after the tag is removed, and that the other tag does not start with "sha256:".
  pub resolve_manifest-other_tag :
      (t : Token) (rest repo tag other : Text) (r : ManifestRecord) (state : AppState B)
      → parse_registry_delete_route rest ≡ some (repo, tag)
      → (registry_repo_tag_delete_handler B t rest state).0 ≡ done tt
      → ((items : List (Result (Text × B.Blob)))
          → B.db_scan meta_tree
              (tag_prefix repo)
              (B.db_remove meta_tree (tag_key repo tag) state.store.db).1
            ≡ ok items
          → all is_ok items ≡ true)
      → tag ≢ other
      → starts_with other (text "sha256:") ≡ false
      → resolve_manifest B repo other state.store.db ≡ ok r
      → resolve_manifest B repo other (registry_repo_tag_delete_handler B t rest state).1.store.db
        ≡ ok r
  resolve_manifest-other_tag t rest repo tag other r state route h readable differs is_tag found =
      let after = (registry_repo_tag_delete_handler B t rest state).1.store.db in
      let (digest, u) = handler-Untagged t rest repo tag state route h in
      resolve_manifest-Pullable B repo other r after is_tag (
        Pullable-Untagged B repo tag digest state.store.db after u other r differs
          (readable u.items u.scanned)
          (Pullable-resolve_manifest B repo other r state.store.db is_tag found))

  -- A tag that was deleted is not found: after a `registry_repo_tag_delete_handler` that answers 200
  -- for a tag that does not start with "sha256:", `resolve_manifest` of it fails with 404.
  pub resolve_manifest-deleted_tag :
      (t : Token) (rest repo tag : Text) (state : AppState B)
      → parse_registry_delete_route rest ≡ some (repo, tag)
      → (registry_repo_tag_delete_handler B t rest state).0 ≡ done tt
      → starts_with tag (text "sha256:") ≡ false
      → resolve_manifest B repo tag (registry_repo_tag_delete_handler B t rest state).1.store.db
        ≡ err Error.not_found
  unfolding resolve_manifest
  resolve_manifest-deleted_tag t rest repo tag state route h is_tag =
      let after = (registry_repo_tag_delete_handler B t rest state).1.store.db in
      let (digest, u) = handler-Untagged t rest repo tag state route h in
      let gone = no_tag B repo tag digest state.store.db after u in
      rw (B.open_of_get meta_tree (tag_key repo tag) after none gone, is_tag, gone) refl
