-- ===== src/Images/Manifests.antt =====
-- Manifests and tags of the image registry, crates/r4a-git-registry/src/registry.rs. The time comes
-- from outside; `to_json` is `serde_json::to_vec` for the answer of `tags_list`, `sort` is `sort` on
-- strings.
use rust4eska.Prelude.{
  ℕ, Text, text, text_eq, nat_eq, Option, none, some, List, [], ◌∷◌, ◌++◌, ◌<>◌, Result, ok, err,
  Error, Exec, Bool, false, ◌==◌, if◌then◌else◌, length, strip_prefix, starts_with, bind,
}
use rust4eska.Models.{ManifestRecord}
use rust4eska.Actions.{pure, lift, reads, ◌>>=◌, ◌>>◌}
use rust4eska.Backend.{Backend}
use rust4eska.Crypto.{Crypto}
use rust4eska.Files.{Disk}
use rust4eska.Images.{
  RegistryState, Response, built, respond, json_response, ok_200, created_201, accepted_202,
  tag_prefix, tag_key, manifest_key, on_meta,
}
use rust4eska.Images.Blobs.{Body, bytes, trailers}

abbrev pub meta_tree : Text
meta_tree = text "registry_meta"

abbrev cons_ok : Text → Result Text → Result Text
cons_ok b (ok rest) = ok (b ++ rest)
cons_ok b (err e) = err e

-- `req.into_body().collect().await?.to_bytes()`
abbrev pub collect : Body → Result Text
collect [] = ok []
collect (err e ∷ body) = err e
collect (ok trailers ∷ body) = collect body
collect (ok (bytes b) ∷ body) = cons_ok b (collect body)

abbrev pub media_type_of : Option Text → Text
media_type_of (some t) = t
media_type_of none = text "application/vnd.oci.image.manifest.v1+json"

abbrev expect_found : {A : Type 0} → Option A → Result A
expect_found (some a) = ok a
expect_found none = err Error.not_found

module _ (B : Backend) where
  open B use {
    Blob, Db, db_get, db_insert, db_remove, db_scan, db_flush, db_open, of_text, read_text, to_text,
    record_json,
  }

  abbrev cons_key : Option Text → Result (List Text) → Result (List Text)
  cons_key (some tag) (ok tags) = ok (tag ∷ tags)
  cons_key none tags = tags
  cons_key tag (err e) = err e

  -- the loop over the keys with the prefix; `String::from_utf8_lossy` leaves such a key as it is
  abbrev tag_names : Text → List (Result (Text × Blob)) → Result (List Text)
  tag_names prefix [] = ok []
  tag_names prefix (err e ∷ items) = err e
  tag_names prefix (ok (key, v) ∷ items) =
      cons_key (strip_prefix key prefix) (tag_names prefix items)

  -- `value.as_ref() == reference.as_bytes()`
  abbrev pub holds : Blob → Text → Bool
  holds value reference = elim (read_text value) [ ok s ↦ s == reference | err e ↦ false ]

  -- the keys of the tags that hold the digest
  unfoldable pub tags_to_remove : Text → List (Result (Text × Blob)) → Result (List Text)
  tags_to_remove reference [] = ok []
  tags_to_remove reference (err e ∷ items) = err e
  tags_to_remove reference (ok (key, value) ∷ items) =
      let rest = tags_to_remove reference items in
      if holds value reference then bind rest (λ keys. ok (key ∷ keys)) else rest

  unfoldable pub remove_all : List Text → Exec Db (Unit {0})
  remove_all [] db = (ok tt, db)
  remove_all (key ∷ keys) db =
      let (r, db') = db_remove meta_tree key db in
      let rest = remove_all keys db' in elim r [ ok u ↦ rest | err e ↦ (err e, db') ]

  abbrev pub digest_of : Text → Text → Db → Result Text
  digest_of repo reference db =
      if starts_with reference (text "sha256:")
      then ok reference
      else bind (db_get meta_tree (tag_key repo reference) db)
          λ found. bind (expect_found found) read_text

  unfoldable pub resolve_manifest : Text → Text → Db → Result ManifestRecord
  resolve_manifest repo reference db = bind (db_open meta_tree db) λ u.
      bind (digest_of repo reference db) λ digest.
        bind (db_get meta_tree (manifest_key repo digest) db)
          λ found. bind (expect_found found) record_json.from_slice

  abbrev pub manifest_answer : ManifestRecord → Response
  manifest_answer r = record (respond ok_200) {
    content_type = some r.media_type;
    content_length = some r.size;
    content_digest = some r.digest;
    body = r.body;
  }

  -- the two writes of `put_manifest`
  unfoldable pub save_manifest : ManifestRecord → Text → Exec Db (Unit {0})
  save_manifest r reference = do
    reads (db_open meta_tree)
    value ← lift (record_json.to_vec r)
    db_insert meta_tree (manifest_key r.repo r.digest) value
    db_insert meta_tree (tag_key r.repo reference) (of_text r.digest)
    db_flush

  -- A digest goes with all tags that hold it, a tag goes alone.
  unfoldable pub drop_manifest : Text → Text → Exec Db (Unit {0})
  drop_manifest repo reference =
      if starts_with reference (text "sha256:")
      then (do
        db_remove meta_tree (manifest_key repo reference)
        items ← reads (db_scan meta_tree (tag_prefix repo))
        keys ← lift (tags_to_remove reference items)
        remove_all keys
        db_flush)
      else (do db_remove meta_tree (tag_key repo reference); db_flush)

-- what is kept of a manifest
abbrev pub record_of : Crypto → ℕ → Text → Option Text → Text → ManifestRecord
record_of C now repo content_type content = record {
  repo = repo;
  digest = text "sha256:" ++ C.sha256 content;
  media_type = media_type_of content_type;
  size = length content;
  created_at = now;
  body = content;
}

abbrev pub put_answer : ManifestRecord → Text → Response
put_answer r reference = record (respond created_201) {
  content_digest = some r.digest;
  location = some (text "/v2/" <> r.repo <> text "/manifests/" <> reference);
}

module _ {B : Backend} {D : Disk} where
  module _ (sort : List Text → List Text) (to_json : Text → List Text → Result Text) where
    unfoldable pub tags_list : Text → Exec (RegistryState B D) Response
    tags_list repo = do
      on_meta (reads (B.db_open meta_tree))
      items ← on_meta (reads (B.db_scan meta_tree (tag_prefix repo)))
      tags ← lift (tag_names B (tag_prefix repo) items)
      body ← lift (to_json repo (sort tags))
      pure (json_response ok_200 body)

  unfoldable pub get_manifest : Text → Text → Exec (RegistryState B D) Response
  get_manifest repo reference = do
    found ← on_meta (reads (resolve_manifest B repo reference))
    lift (built B (manifest_answer B found))

  unfoldable pub put_manifest :
      Crypto → ℕ → Text → Text → Option Text → Body → Exec (RegistryState B D) Response
  put_manifest C now repo reference content_type body = do
    content ← lift (collect body)
    on_meta (save_manifest B (record_of C now repo content_type content) reference)
    lift (built B (put_answer (record_of C now repo content_type content) reference))

  unfoldable pub delete_manifest : Text → Text → Exec (RegistryState B D) Response
  delete_manifest repo reference = do
    on_meta (reads (B.db_open meta_tree))
    on_meta (drop_manifest B repo reference)
    pure (respond accepted_202)
