-- ===== src/Server/Registry/Tags.antt =====
-- The handlers of binaries/r4a-server/src/main.rs that list and delete what the image registry keeps.
-- From outside come what serde_json reads of a manifest's body and the sorting by name and by tag. The
-- order of the repositories before that stands for the order of the `HashMap`.
use rust4eska.Prelude.{
  ℕ, ◌+◌, ◌-◌, ◌^◌, ◌%◌, Text, text_eq, nat_eq, Option, none, some, List, [], ◌∷◌, ◌++◌, Result, ok,
  err, Error, Exec, bind, Bool, false, ◌==◌, if◌then◌else◌, lookup, insert, any, length, leb,
}
use rust4eska.Models.{Verb, Resource, Token, RegistryManifestRecord}
use rust4eska.Backend.{Backend}
use rust4eska.Store.{Store, on_db}
use rust4eska.Store.Rbac.{can}
use rust4eska.Images.{tag_key, tag_prefix, manifest_key}
use rust4eska.Images.Manifests.{meta_tree, holds}
use rust4eska.Server.{AppState}
use rust4eska.Server.Registry.{
  parse_registry_tag_key, parse_registry_tags_route, parse_registry_delete_route,
}
use rust4eska.Server.Reply.{
  Handler, forbidden, not_found, finish, guard, expect, reading, storing, ◌>>=◌, ◌>>◌,
}

pub record RegistryRepoInfo : Type 0 where
  pub name : Text
  pub tag_count : ℕ
  pub total_size : ℕ

pub record RegistryTagInfo : Type 0 where
  pub tag : Text
  pub digest : Text
  pub size : ℕ
  pub pushed_at : ℕ

-- the sizes of the configuration, if there is one, and of the layers
pub record RegistryManifestBody : Type 0 where
  pub config : Option ℕ
  pub layers : List ℕ

-- `u64::saturating_add`
abbrev pub saturating_add : ℕ → ℕ → ℕ
saturating_add a b = if leb (a + b) (2 ^ 64 - 1) then a + b else 2 ^ 64 - 1

-- `sum::<u64>()`, which wraps in a build with optimisations
abbrev pub sum : List ℕ → ℕ
sum [] = 0
sum (size ∷ sizes) = (size + sum sizes) % 2 ^ 64

abbrev pub size_or_zero : Option ℕ → ℕ
size_or_zero (some size) = size
size_or_zero none = 0

module _ (body_json : Text → Result RegistryManifestBody) where
  unfoldable pub registry_manifest_total_size : RegistryManifestRecord → ℕ
  registry_manifest_total_size r = elim (body_json r.body) [
    | ok manifest ↦ saturating_add (size_or_zero manifest.config) (sum manifest.layers)
    | err e ↦ r.size
  ]

abbrev pub Tagged : Type 0
Tagged = List (Text × Text)

-- `repo_tags.entry(repo).or_default().push((tag, digest))`
abbrev push_tag : List (Text × Tagged) → Text → Text × Text → Option Tagged → List (Text × Tagged)
push_tag found repo entry (some tags) = insert repo (tags ++ (entry ∷ [])) found
push_tag found repo entry none = insert repo (entry ∷ []) found

module _ (B : Backend) where
  open B use {Blob, Db, db_get, db_iter, db_scan, db_remove, db_flush, read_text, read_summary}

  abbrev pub may_registry : Verb → Token → AppState B → Bool
  may_registry verb t state = can B state.store t.username verb Resource.registry none

  abbrev summary_found : Option Blob → Result (Option RegistryManifestRecord)
  summary_found none = ok none
  summary_found (some raw) = bind (read_summary raw) λ r. ok (some r)

  unfoldable pub load_registry_manifest_record :
      Text → Text → Store B → Result (Option RegistryManifestRecord)
  load_registry_manifest_record repo digest store =
      bind (db_get meta_tree (manifest_key repo digest) store.db) summary_found

  -- the loop over the entries; one that is no tag is passed over
  abbrev pub group_tags :
      List (Text × Tagged) → List (Result (Text × Blob)) → Result (List (Text × Tagged))
  group_tags found [] = ok found
  group_tags found (err e ∷ items) = err e
  group_tags found (ok (key, value) ∷ items) = elim (parse_registry_tag_key key) [
    | none ↦ group_tags found items
    | some (repo, tag) ↦ elim (read_text value) [
      | err e ↦ err e
      | ok digest ↦ group_tags (push_tag found repo (tag, digest) (lookup repo found)) items
    ]
  ]

  module _ (body_json : Text → Result RegistryManifestBody) where
    abbrev size_of : Option RegistryManifestRecord → ℕ
    size_of (some r) = registry_manifest_total_size body_json r
    size_of none = 0

    -- the size of a repository, in which a digest counts once
    abbrev pub total_size : Store B → Text → Tagged → List Text → ℕ → Result ℕ
    total_size store repo [] seen total = ok total
    total_size store repo ((tag, digest) ∷ tags) seen total =
        let skipped = total_size store repo tags seen total in
        if any (λ d. d == digest) seen
        then skipped
        else bind (load_registry_manifest_record repo digest store) λ found.
          total_size store repo tags (digest ∷ seen) (saturating_add total (size_of found))

    abbrev pub repo_infos : Store B → List (Text × Tagged) → Result (List RegistryRepoInfo)
    repo_infos store [] = ok []
    repo_infos store ((repo, tags) ∷ rest) =
        let more = repo_infos store rest in
        bind (total_size store repo tags [] 0) λ total.
          bind more λ infos.
            ok (record { name = repo; tag_count = length tags; total_size = total } ∷ infos)

    unfoldable pub registry_repos_handler :
        (List RegistryRepoInfo → List RegistryRepoInfo)
        → Token
        → Handler (AppState B) (List RegistryRepoInfo)
    registry_repos_handler sort t = do
      guard forbidden (may_registry Verb.list t)
      items ← reading B (λ store. db_iter meta_tree store.db)
      repo_tags ← reading B (λ store. group_tags [] items)
      repos ← reading B (λ store. repo_infos store repo_tags)
      finish (sort repos)

    abbrev tag_info : Text → Text → Option RegistryManifestRecord → Result RegistryTagInfo
    tag_info tag digest none = err Error.not_found
    tag_info tag digest (some r) = ok (record {
      tag = tag;
      digest = digest;
      size = registry_manifest_total_size body_json r;
      pushed_at = r.created_at;
    })

    abbrev tag_entry : Store B → Text → Text → Blob → Result RegistryTagInfo
    tag_entry store repo tag value =
        bind (read_text value)
          λ digest. bind (load_registry_manifest_record repo digest store) (tag_info tag digest)

    abbrev pub tag_infos :
        Store B → Text → List (Result (Text × Blob)) → Result (List RegistryTagInfo)
    tag_infos store repo [] = ok []
    tag_infos store repo (err e ∷ items) = err e
    tag_infos store repo (ok (key, value) ∷ items) =
        let more = tag_infos store repo items in
        elim (parse_registry_tag_key key) [
          | none ↦ more
          | some (r, tag) ↦
              bind (tag_entry store repo tag value) λ info. bind more λ infos. ok (info ∷ infos)
        ]

    unfoldable pub registry_repo_tags_handler :
        (List RegistryTagInfo → List RegistryTagInfo)
        → Token
        → Text
        → Handler (AppState B) (List RegistryTagInfo)
    registry_repo_tags_handler sort t rest = do
      guard forbidden (may_registry Verb.list t)
      repo ← expect not_found (parse_registry_tags_route rest)
      items ← reading B (λ store. db_scan meta_tree (tag_prefix repo) store.db)
      tags ← reading B (λ store. tag_infos store repo items)
      finish (sort tags)

  -- whether an entry that can be read holds the digest
  abbrev pub refers : Text → Result (Text × Blob) → Bool
  refers digest (ok (key, value)) = holds B value digest
  refers digest (err e) = false

  -- the manifest goes when no tag of the repository refers to it any more
  unfoldable pub drop_unreferenced : Text → Text → List (Result (Text × Blob)) → Exec Db (Unit {0})
  drop_unreferenced repo digest items db =
      if any (refers digest) items
      then (ok tt, db)
      else db_remove meta_tree (manifest_key repo digest) db

  -- the writes of the deletion
  unfoldable pub delete_tag : Text → Text → Text → Handler (AppState B) (Unit {0})
  delete_tag repo tag digest = do
    storing B (on_db B (db_remove meta_tree (tag_key repo tag)))
    items ← reading B (λ store. db_scan meta_tree (tag_prefix repo) store.db)
    storing B (on_db B (drop_unreferenced repo digest items))
    storing B (on_db B db_flush)

  unfoldable pub registry_repo_tag_delete_handler : Token → Text → Handler (AppState B) (Unit {0})
  registry_repo_tag_delete_handler t rest = do
    guard forbidden (may_registry Verb.delete t)
    (repo, tag) ← expect not_found (parse_registry_delete_route rest)
    found ← reading B (λ store. db_get meta_tree (tag_key repo tag) store.db)
    raw_digest ← expect not_found found
    digest ← reading B (λ store. read_text raw_digest)
    delete_tag repo tag digest
