-- ===== src/Images/Blobs.antt =====
-- Blobs of the image registry, crates/r4a-git-registry/src/registry.rs: uploads in pieces, and what
-- is stored under a digest. The id of a new upload, `Uuid::new_v4`, comes from outside.
use rust4eska.Prelude.{
  ℕ, ◌+◌, Text, text, text_eq, nat_eq, Option, none, some, List, [], ◌∷◌, ◌++◌, ◌<>◌, Result, ok,
  err, Exec, Bool, true, false, ◌==◌, if◌then◌else◌, length, decimal,
}
use rust4eska.Actions.{pure, lift, reads, ◌>>=◌, ◌>>◌}
use rust4eska.Backend.{Backend}
use rust4eska.Crypto.{Crypto}
use rust4eska.Files.{Disk, Place, join, parent}
use rust4eska.Images.{
  RegistryState, Response, built, respond, error_response, ok_200, created_201, accepted_202,
  bad_request_400, not_found_404, uploads_dir, validate_digest, blob_path, on_fs, with_root,
}

-- One piece of a request's body; trailers carry no bytes.
pub data Frame : Type 0 where
  bytes : Text → Frame
  trailers : Frame

-- The pieces as they arrive; an error breaks the transfer off.
abbrev pub Body : Type 0
Body = List (Result Frame)

abbrev pub upload_location : Text → Text → Text
upload_location repo upload_id = text "/v2/" <> repo <> text "/blobs/uploads/" <> upload_id

abbrev pub blob_location : Text → Text → Text
blob_location repo digest = text "/v2/" <> repo <> text "/blobs/" <> digest

-- the answer to an upload that goes on
abbrev pub accepted : Text → Text → ℕ → Response
accepted repo upload_id written = record (respond accepted_202) {
  location = some (upload_location repo upload_id);
  content_range = some (text "0-" ++ decimal written);
  upload_uuid = some upload_id;
}

-- the answer when the blob is stored
abbrev pub created : Text → Text → Response
created repo digest = record (respond created_201) {
  location = some (blob_location repo digest);
  content_digest = some digest;
}

module _ (D : Disk) where
  -- the loop over the frames; its result is the number of bytes in the file
  unfoldable pub write_frames : Place → Body → ℕ → Exec D.Fs ℕ
  write_frames place [] written = pure written
  write_frames place (err e ∷ body) written = lift (err e)
  write_frames place (ok trailers ∷ body) written = write_frames place body written
  write_frames place (ok (bytes b) ∷ body) written = do
    D.write_all place b
    write_frames place body (written + length b)

  -- The file is opened to append, measured, written and flushed.
  unfoldable pub receive : Bool → Place → (D.Fs → Result ℕ) → Body → Exec D.Fs ℕ
  receive create place measure body = do
    D.open_append create place
    start ← reads measure
    written ← write_frames place body start
    D.file_flush place
    pure written

  -- `let _ = fs::remove_file(place).await`
  abbrev pub discard : Place → Exec D.Fs (Unit {0})
  discard place fs = (ok tt, (D.remove_file place fs).1)

  -- The upload becomes the blob, or goes if the blob is there already.
  abbrev pub settle : Place → Place → Bool → Exec D.Fs (Unit {0})
  settle upload final true = discard upload
  settle upload final false = D.rename upload final

  module _ (C : Crypto) where
    -- `sha256_file`, which reads the file in pieces of 8192 bytes
    unfoldable pub sha256_file : Place → D.Fs → Result Text
    sha256_file place fs = elim (D.read place fs) [
      | ok content ↦ ok (text "sha256:" ++ C.sha256 content)
      | err e ↦ err e
    ]

    -- what `complete_upload` does when the file is written and its digest known
    abbrev pub store_blob : Place → Text → Place → Text → Exec D.Fs Response
    store_blob root repo upload expected = do
      final ← lift (blob_path root expected)
      D.create_dir_all (parent final)
      exists ← reads (λ fs. D.try_exists final fs)
      settle upload final exists
      pure (created repo expected)

    abbrev pub reject_blob : Place → Exec D.Fs Response
    reject_blob upload = do
      discard upload
      pure (error_response bad_request_400 (text "digest mismatch"))

    abbrev pub finish_upload : Place → Text → Place → Text → Text → Exec D.Fs Response
    finish_upload root repo upload expected computed =
        if computed == expected then store_blob root repo upload expected else reject_blob upload

    abbrev pub upload_found : Place → Text → Place → Text → Body → Bool → Exec D.Fs Response
    upload_found root repo upload expected body false =
        pure (error_response not_found_404 (text "upload not found"))
    upload_found root repo upload expected body true = do
      receive false upload (λ fs. ok 0) body
      computed ← reads (λ fs. sha256_file upload fs)
      finish_upload root repo upload expected computed

    -- the handler from where the digest is known to be valid
    unfoldable pub complete_at : Place → Text → Place → Text → Body → Exec D.Fs Response
    complete_at root repo upload expected body = do
      exists ← reads (λ fs. D.try_exists upload fs)
      upload_found root repo upload expected body exists

  abbrev pub blob_answer : Text → ℕ → Text → Response
  blob_answer digest size body = record (respond ok_200) {
    content_length = some size;
    content_digest = some digest;
    body = body;
  }

  abbrev pub head_found : Text → Place → Bool → Exec D.Fs Response
  head_found digest place false = pure (error_response not_found_404 (text "blob not found"))
  head_found digest place true = do
    size ← reads (λ fs. D.len place fs)
    pure (blob_answer digest size [])

  -- The file is read as the answer is sent; its bytes are those of the file.
  abbrev pub get_found : Text → Place → Bool → Exec D.Fs Response
  get_found digest place false = pure (error_response not_found_404 (text "blob not found"))
  get_found digest place true = do
    size ← reads (λ fs. D.len place fs)
    content ← reads (λ fs. D.read place fs)
    pure (record (blob_answer digest size content) {
      content_type = some (text "application/octet-stream");
    })

module _ {B : Backend} {D : Disk} where
  unfoldable pub start_upload : Text → Text → Exec (RegistryState B D) Response
  start_upload new_id repo = with_root λ root. do
    on_fs (D.create_dir_all (uploads_dir root))
    on_fs (D.write (join (uploads_dir root) new_id) [])
    lift (built B (record (accepted repo new_id 0) { content_range = some (text "0-0") }))

  unfoldable pub patch_upload : Text → Text → Body → Exec (RegistryState B D) Response
  patch_upload repo upload_id body = with_root λ root. do
    let place = join (uploads_dir root) upload_id
    written ← on_fs (receive D true place (D.len place) body)
    lift (built B (accepted repo upload_id written))

  module _ (C : Crypto) where
    unfoldable pub complete_upload :
        Text → Text → Option Text → Body → Exec (RegistryState B D) Response
    complete_upload repo upload_id none body =
        pure (error_response bad_request_400 (text "digest query is required"))
    complete_upload repo upload_id (some expected) body = do
      lift (validate_digest expected)
      response ← with_root λ root.
          on_fs (complete_at D C root repo (join (uploads_dir root) upload_id) expected body)
      lift (built B response)

  unfoldable pub head_blob : Text → Exec (RegistryState B D) Response
  head_blob digest = with_root λ root. do
    lift (validate_digest digest)
    place ← lift (blob_path root digest)
    exists ← on_fs (reads (D.try_exists place))
    on_fs (head_found D digest place exists)

  unfoldable pub get_blob : Text → Exec (RegistryState B D) Response
  get_blob digest = with_root λ root. do
    lift (validate_digest digest)
    place ← lift (blob_path root digest)
    exists ← on_fs (reads (D.try_exists place))
    on_fs (get_found D digest place exists)
