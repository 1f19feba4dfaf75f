-- ===== src/Images/Integrity.antt =====
-- The blobs of the image registry, crates/r4a-git-registry/src/registry.rs, stay what their digests
-- say, whatever is asked.
use rust4eska.Prelude.{
  ℕ, ◌≡◌, ◌≢◌, refl, subst, sym, ◌∙◌, Text, text, text_eq, nat_eq, Option, none, some, List, [],
  Result, ok, err, Exec, Bool, true, false, lookup, trim_slashes,
}
use rust4eska.Actions.Keeping.{Keeps, Keeps-bind, Keeps-pure, Keeps-lift, Keeps-reads}
use rust4eska.Backend.{Backend}
use rust4eska.Crypto.{Crypto}
use rust4eska.Files.{Disk, Place, join}
use rust4eska.Files.Names.{IsName, join-IsName}
use rust4eska.Images.{
  RegistryState, Response, uploads_dir, hex_place, blobs_root, on_fs, on_meta, with_root, Method,
}
use rust4eska.Images.Auth.{AuthIdentity}
use rust4eska.Images.Addressed.{
  IsAddressed, Only-Keeps, receive-Keeps, complete_at-Keeps, create_dir_all-Keeps, upload≢hex_place,
}
use rust4eska.Images.Blobs.{
  Body, start_upload, patch_upload, complete_upload, head_blob, get_blob, head_found, get_found,
}
use rust4eska.Images.Manifests.{tags_list, get_manifest, put_manifest, delete_manifest}
use rust4eska.Images.Requests.{
  Request, Route, route, perform, identified, ensure_layout, handle_request, registry_handler,
  answered,
}

apart :
    (root : Place) (upload_id : Text)
    → IsName upload_id
    → (hex : Text) → join (uploads_dir root) upload_id ≢ hex_place root hex
apart root upload_id is_name hex e =
    upload≢hex_place root upload_id hex (sym (join-IsName (uploads_dir root) upload_id is_name) ∙ e)

module _ {B : Backend} (D : Disk) (C : Crypto) (root : Place) where
  -- the registry at its root, with its blobs in order
  abbrev Holds : RegistryState B D → Type 0
  Holds s = (s.root ≡ root) × IsAddressed D C root s.fs

  on_fs-Keeps :
      {A : Type 0} {m : Exec D.Fs A} → Keeps (IsAddressed D C root) m → Keeps Holds (on_fs m)
  unfolding on_fs
  on_fs-Keeps k = record { kept = λ s i. (i.0, k.kept s.fs i.1) }

  on_meta-Keeps : {A : Type 0} (m : Exec B.Db A) → Keeps Holds (on_meta m)
  unfolding on_meta
  on_meta-Keeps m = record { kept = λ s i. i }

  with_root-Keeps :
      {A : Type 0} (f : Place → Exec (RegistryState B D) A)
      → Keeps Holds (f root)
      → Keeps Holds (with_root f)
  unfolding with_root
  with_root-Keeps f k = record {
    kept = λ s i. subst (λ (p : Place). Holds (f p s).1) (sym i.0) (k.kept s i);
  }

  module _ (upload_id : Text) (is_name : IsName upload_id) where
    start_upload-Keeps : (repo : Text) → Keeps Holds (start_upload upload_id repo)
    unfolding start_upload
    start_upload-Keeps repo = with_root-Keeps _ (
        Keeps-bind (on_fs-Keeps (create_dir_all-Keeps D C root (uploads_dir root))) λ u.
          Keeps-bind
            (on_fs-Keeps (
              Only-Keeps D C root (join (uploads_dir root) upload_id) (apart root upload_id is_name)
                λ q fs h. D.file-write_ne (join (uploads_dir root) upload_id) q [] fs h))
            λ u. Keeps-lift _)

    patch_upload-Keeps :
        (repo : Text) (body : Body) → Keeps Holds (patch_upload repo upload_id body)
    unfolding patch_upload
    patch_upload-Keeps repo body = with_root-Keeps _ (
        Keeps-bind
          (on_fs-Keeps (
            receive-Keeps D C root (join (uploads_dir root) upload_id)
              (apart root upload_id is_name) true _ body))
          λ n. Keeps-lift _)

    complete_upload-Keeps :
        (repo : Text) (digest : Option Text) (body : Body)
        → Keeps Holds (complete_upload C repo upload_id digest body)
    unfolding complete_upload
    complete_upload-Keeps repo none body = Keeps-pure _
    complete_upload-Keeps repo (some expected) body = Keeps-bind (Keeps-lift _) λ u.
        Keeps-bind
          (with_root-Keeps _ (
            on_fs-Keeps (
              complete_at-Keeps D C root (join (uploads_dir root) upload_id)
                (apart root upload_id is_name) repo expected body)))
          λ response. Keeps-lift _

  head_blob-Keeps : (digest : Text) → Keeps Holds (head_blob digest)
  unfolding head_blob
  head_blob-Keeps digest = with_root-Keeps _ (
      Keeps-bind (Keeps-lift _) λ u. Keeps-bind (Keeps-lift _) λ place.
        Keeps-bind (on_fs-Keeps (Keeps-reads _)) λ there. on_fs-Keeps (found digest place there))
    where
      found :
          (digest : Text) (place : Place) (there : Bool)
          → Keeps (IsAddressed D C root) (head_found D digest place there)
      found digest place false = Keeps-pure _
      found digest place true = Keeps-bind (Keeps-reads _) λ size. Keeps-pure _

  get_blob-Keeps : (digest : Text) → Keeps Holds (get_blob digest)
  unfolding get_blob
  get_blob-Keeps digest = with_root-Keeps _ (
      Keeps-bind (Keeps-lift _) λ u. Keeps-bind (Keeps-lift _) λ place.
        Keeps-bind (on_fs-Keeps (Keeps-reads _)) λ there. on_fs-Keeps (found digest place there))
    where
      found :
          (digest : Text) (place : Place) (there : Bool)
          → Keeps (IsAddressed D C root) (get_found D digest place there)
      found digest place false = Keeps-pure _
      found digest place true =
          Keeps-bind (Keeps-reads _) λ size. Keeps-bind (Keeps-reads _) λ content. Keeps-pure _

  module _ (sort : List Text → List Text) (to_json : Text → List Text → Result Text) where
    tags_list-Keeps : (repo : Text) → Keeps Holds (tags_list sort to_json repo)
    unfolding tags_list
    tags_list-Keeps repo = Keeps-bind (on_meta-Keeps _) λ u.
        Keeps-bind (on_meta-Keeps _)
          λ items. Keeps-bind (Keeps-lift _) λ tags. Keeps-bind (Keeps-lift _) λ body. Keeps-pure _

  get_manifest-Keeps : (repo reference : Text) → Keeps Holds (get_manifest repo reference)
  unfolding get_manifest
  get_manifest-Keeps repo reference = Keeps-bind (on_meta-Keeps _) λ found. Keeps-lift _

  put_manifest-Keeps :
      (now : ℕ) (repo reference : Text) (content_type : Option Text) (body : Body)
      → Keeps Holds (put_manifest C now repo reference content_type body)
  unfolding put_manifest
  put_manifest-Keeps now repo reference content_type body =
      Keeps-bind (Keeps-lift _) λ content. Keeps-bind (on_meta-Keeps _) λ u. Keeps-lift _

  delete_manifest-Keeps : (repo reference : Text) → Keeps Holds (delete_manifest repo reference)
  unfolding delete_manifest
  delete_manifest-Keeps repo reference =
      Keeps-bind (on_meta-Keeps _) λ u. Keeps-bind (on_meta-Keeps _) λ v. Keeps-pure _

  module _ (sort : List Text → List Text) (to_json : Text → List Text → Result Text) where
    perform-Keeps :
        (req : Request) (asked : Route) (method : Method)
        → IsName req.new_id
        → ((repo upload_id : Text) → asked ≡ Route.upload repo upload_id → IsName upload_id)
        → Keeps Holds (perform C sort to_json req asked method)
    perform-Keeps req Route.root Method.get n ids = Keeps-pure _
    perform-Keeps req Route.root Method.head n ids = Keeps-pure _
    perform-Keeps req (Route.tags repo) Method.get n ids = tags_list-Keeps sort to_json repo
    perform-Keeps req (Route.uploads repo) Method.post n ids = start_upload-Keeps req.new_id n repo
    perform-Keeps req (Route.upload repo upload_id) Method.patch n ids =
        patch_upload-Keeps upload_id (ids repo upload_id refl) repo req.body
    perform-Keeps req (Route.upload repo upload_id) Method.put n ids =
        complete_upload-Keeps upload_id (ids repo upload_id refl) repo
          (lookup (text "digest") req.query) req.body
    perform-Keeps req (Route.blob repo digest) Method.head n ids = head_blob-Keeps digest
    perform-Keeps req (Route.blob repo digest) Method.get n ids = get_blob-Keeps digest
    perform-Keeps req (Route.manifest repo reference) Method.get n ids =
        get_manifest-Keeps repo reference
    perform-Keeps req (Route.manifest repo reference) Method.put n ids =
        put_manifest-Keeps req.now repo reference req.content_type req.body
    perform-Keeps req (Route.manifest repo reference) Method.delete n ids =
        delete_manifest-Keeps repo reference
    perform-Keeps req Route.unknown method n ids = Keeps-pure _
    perform-Keeps req _ method n ids = Keeps-pure _

    handle_request-Keeps :
        (req : Request)
        → IsName req.new_id
        → ((repo upload_id : Text)
            → route req.path ≡ Route.upload repo upload_id
            → IsName upload_id)
        → Keeps Holds (handle_request C sort to_json req)
    unfolding handle_request
    handle_request-Keeps req n ids =
        Keeps-bind layout λ u. Keeps-bind (Keeps-reads _) λ auth. who auth
      where
        layout : Keeps Holds (ensure_layout C sort to_json)
        layout = with_root-Keeps _ (
            Keeps-bind (on_fs-Keeps (create_dir_all-Keeps D C root (blobs_root root)))
              λ u. on_fs-Keeps (create_dir_all-Keeps D C root (uploads_dir root)))

        who : (auth : Option AuthIdentity) → Keeps Holds (identified C sort to_json req auth)
        who none = Keeps-pure _
        who (some auth) =
            Keeps-bind (Keeps-reads _) λ u. perform-Keeps req (route req.path) req.method n ids

module _ {B : Backend} (D : Disk) (C : Crypto) (sort : List Text → List Text)
    (to_json : Text → List Text → Result Text) where
  answered-fs :
      (I : RegistryState B D → Type 0) (r : Result Response × RegistryState B D)
      → I r.1
      → I (answered C sort to_json r).1
  answered-fs I (ok response, s) i = i
  answered-fs I (err e, s) i = i

  -- Whatever is asked of the registry and however it answers, a file that lies where the blob of some
  -- digits lies has these as its SHA-256 afterwards if this held before, provided that the fresh id and
  -- the id of the upload that the path names, if it names one, are names of entries of a directory: not
  -- empty, with no slash, and neither `.` nor `..`.
  pub registry_handler-IsAddressed :
      (req : Request) (s : RegistryState B D)
      → IsName req.new_id
      → ((repo upload_id : Text)
          → route (trim_slashes req.path) ≡ Route.upload repo upload_id
          → IsName upload_id)
      → IsAddressed D C s.root s.fs
      → IsAddressed D C s.root (registry_handler C sort to_json req s).1.fs
  unfolding registry_handler
  registry_handler-IsAddressed req s n ids i =
      let asked : Request = record req { path = trim_slashes req.path } in
      let after = (handle_request-Keeps D C s.root sort to_json asked n ids).kept s (refl, i) in
      (answered-fs (λ (t : RegistryState B D). (t.root ≡ s.root) × IsAddressed D C s.root t.fs)
        (handle_request C sort to_json asked s) after).1
