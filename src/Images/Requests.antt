-- ===== src/Images/Requests.antt =====
-- The routes of the image registry: `handle_request` and `registry_handler` of
-- crates/r4a-git-registry/src/registry.rs.
use rust4eska.Prelude.{
  ℕ, Text, text, text_eq, nat_eq, Option, none, some, List, [], Result, ok, err, Error, Exec, Bool,
  true, false, lookup, if◌then◌else◌, is_empty,
}
unfoldable use rust4eska.Prelude.{strip_suffix, split_once, trim_slashes}
use rust4eska.Actions.{pure, reads, ◌>>=◌, ◌>>◌}
use rust4eska.Backend.{Backend}
use rust4eska.Crypto.{Crypto}
use rust4eska.Files.{Disk}
use rust4eska.Images.{
  RegistryState, Response, respond, error_response, unauthorized_response, Status, ok_200,
  forbidden_403, not_found_404, method_not_allowed_405, internal_error_500, Method, blobs_root,
  uploads_dir, on_fs, with_root,
}
use rust4eska.Images.Auth.{AuthIdentity, authenticate, ensure_write_allowed}
use rust4eska.Images.Blobs.{Body, start_upload, patch_upload, complete_upload, head_blob, get_blob}
use rust4eska.Images.Manifests.{tags_list, get_manifest, put_manifest, delete_manifest}

-- What a request brings: the headers `Authorization` and `Content-Type`, `None` where they are missing
-- or no text, and what else comes from outside: a fresh id and the time.
pub record Request : Type 0 where
  pub method : Method
  pub path : Text
  pub query : List (Text × Text)
  pub authorization : Option Text
  pub content_type : Option Text
  pub body : Body
  pub new_id : Text
  pub now : ℕ

-- `matches!(method, Method::GET | Method::HEAD)`
abbrev pub is_read : Method → Bool
is_read Method.get = true
is_read Method.head = true
is_read _ = false

abbrev pub not_allowed : Response
not_allowed = error_response method_not_allowed_405 (text "method not allowed")

-- What a path asks for, in the order of the tests.
pub data Route : Type 0 where
  root : Route
  tags uploads : Text → Route
  upload blob manifest : Text → Text → Route
  unknown : Route

abbrev pub with_parts : (Text → Text → Route) → Option (Text × Text) → Route → Route
with_parts f (some (a, b)) other = f a b
with_parts f none other = other

abbrev pub with_part : (Text → Route) → Option Text → Route → Route
with_part f (some a) other = f a
with_part f none other = other

unfoldable pub route : Text → Route
unfolding strip_suffix split_once
route path =
    if is_empty path
    then root
    else with_part tags (strip_suffix path (text "/tags/list")) (
        with_part uploads (strip_suffix path (text "/blobs/uploads")) (
          with_parts upload (split_once path (text "/blobs/uploads/")) (
            with_parts blob (split_once path (text "/blobs/"))
              (with_parts manifest (split_once path (text "/manifests/")) unknown))))

-- `err.downcast_ref::<StatusCode>()`
abbrev pub error_status : Error → Status
error_status Error.forbidden = forbidden_403
error_status Error.not_found = not_found_404
error_status _ = internal_error_500

module _ {B : Backend} {D : Disk} (C : Crypto) (sort : List Text → List Text)
    (to_json : Text → List Text → Result Text) where
  abbrev pub perform : Request → Route → Method → Exec (RegistryState B D) Response
  perform req root Method.get = pure (respond ok_200)
  perform req root Method.head = pure (respond ok_200)
  perform req (tags repo) Method.get = tags_list sort to_json repo
  perform req (uploads repo) Method.post = start_upload req.new_id repo
  perform req (upload repo upload_id) Method.patch = patch_upload repo upload_id req.body
  perform req (upload repo upload_id) Method.put =
      complete_upload C repo upload_id (lookup (text "digest") req.query) req.body
  perform req (blob repo digest) Method.head = head_blob digest
  perform req (blob repo digest) Method.get = get_blob digest
  perform req (manifest repo reference) Method.get = get_manifest repo reference
  perform req (manifest repo reference) Method.put =
      put_manifest C req.now repo reference req.content_type req.body
  perform req (manifest repo reference) Method.delete = delete_manifest repo reference
  perform req unknown method = pure (error_response not_found_404 (text "not found"))
  perform req _ method = pure not_allowed

  abbrev pub permitted : Request → AuthIdentity → Exec (RegistryState B D) Response
  permitted req auth = do
    reads (λ s. if is_read req.method then ok tt else ensure_write_allowed B auth s.store)
    perform req (route req.path) req.method

  abbrev pub identified : Request → Option AuthIdentity → Exec (RegistryState B D) Response
  identified req none = pure unauthorized_response
  identified req (some auth) = permitted req auth

  abbrev pub ensure_layout : Exec (RegistryState B D) (Unit {0})
  ensure_layout = with_root λ root. do
    on_fs (D.create_dir_all (blobs_root root))
    on_fs (D.create_dir_all (uploads_dir root))

  unfoldable pub handle_request : Request → Exec (RegistryState B D) Response
  handle_request req = do
    ensure_layout
    auth ← reads (λ s. authenticate B C req.authorization s.store)
    identified req auth

  abbrev pub answered : Result Response × RegistryState B D → Response × RegistryState B D
  answered (ok response, s) = (response, s)
  answered (err e, s) = (error_response (error_status e) (text "registry error"), s)

  unfoldable pub registry_handler : Request → RegistryState B D → Response × RegistryState B D
  unfolding handle_request trim_slashes
  registry_handler req s = answered (handle_request (record req { path = trim_slashes req.path }) s)

  unfoldable pub registry_root_handler : Request → RegistryState B D → Response × RegistryState B D
  unfolding handle_request
  registry_root_handler req s = answered (handle_request (record req { path = [] }) s)
