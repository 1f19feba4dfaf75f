-- ===== src/Tests/Uploads.antt =====
-- Uploads to the image registry.
unfoldable use rust4eska.Prelude.{trim_slashes, decimal}
use rust4eska.Store.Entities.{get_token, get_bindings_for_subject, get_policy}
use rust4eska.Store.Rbac.{can}
use rust4eska.Prelude.{◌≡◌, refl, sym, ◌∙◌, subst, Text, text, none, some, [], ◌∷◌, ok}
use rust4eska.Models.{Verb, Resource}
use rust4eska.Backend.Memory.{policy, binding, token, memory, lookup, entries}
use rust4eska.Store.{Store}
use rust4eska.Crypto.Toy.{toy}
use rust4eska.Files.{Place, join, walk, names}
use rust4eska.Files.Memory.{memory_disk, place, content, erase, content-place_ne}
use rust4eska.Files.Names.{IsName}
use rust4eska.Images.{
  RegistryState, Method, built, on_fs, with_root, validate_digest, blob_path, created_201,
  bad_request_400, uploads_dir, hex_place,
}
use rust4eska.Images.Addressed.{IsAddressed, upload≢hex_place}
use rust4eska.Images.Integrity.{registry_handler-IsAddressed}
use rust4eska.Images.Blobs.{
  patch_upload, complete_upload, complete_at, sha256_file, receive, write_frames, accepted, bytes,
  trailers,
}
use rust4eska.Images.Requests.{Request, Route, route, registry_handler, handle_request}
use rust4eska.Images.Auth.{authenticate, ensure_write_allowed, may_write}
use rust4eska.Actions.{◌>>=◌}

abbrev store : Store memory
store = record {
  db =
      (
        text "policies",
        text "p1",
        policy (record {
          id = text "p1";
          rules =
              record {
                verbs = Verb.create ∷ [];
                resources = Resource.registry ∷ [];
                resource_names = none;
              }
              ∷ [];
        }),
      )
      ∷ (
        text "bindings",
        text "b1",
        binding (record { id = text "b1"; subject = text "alice"; policy_id = text "p1" }),
      )
      ∷ (
        text "tokens",
        text "tok",
        token (record { id = text "tok"; username = text "alice"; created_at = 7 }),
      )
      ∷ [];
  cluster_secret = text "s3cret";
  vault_keys = [];
  masters = [];
  outbox = [];
}

abbrev root : Place
root = text "registry" ∷ []

abbrev upload : Place
upload = text "u1" ∷ uploads_dir root

-- one upload that has begun
abbrev state : RegistryState memory memory_disk
state = record { root = root; store = store; fs = place upload (text "layer") [] }

abbrev hex : Text
hex = text "7000000000000000000000000000000000000000000000000000000000000000"

abbrev complete : Text → Request
complete digest = record {
  method = Method.put;
  path = text "/team/web/blobs/uploads/u1/";
  query = (text "digest", digest) ∷ [];
  authorization = some (text "Bearer tok");
  content_type = none;
  body = ok (bytes (text "-a")) ∷ ok trailers ∷ [];
  new_id = text "u2";
  now = 7;
}

u1-IsName : IsName (text "u1")
u1-IsName = record { no_slash = refl; full = refl; not_here = refl; not_up = refl }

u2-IsName : IsName (text "u2")
u2-IsName = record { no_slash = refl; full = refl; not_here = refl; not_up = refl }

asks : route (trim_slashes (complete hex).path) ≡ Route.upload (text "team/web") (text "u1")
unfolding route trim_slashes
asks = refl

names_entry :
    (repo upload_id : Text)
    → route (trim_slashes (complete hex).path) ≡ Route.upload repo upload_id
    → IsName upload_id
names_entry repo upload_id e = subst (λ (id : Text). IsName id) same u1-IsName
  where
    same : text "u1" ≡ upload_id
    same = let both = sym asks ∙ e in cc

empty : (q : Place) (b : Text) → content q [] ≡ some b → ⊥
unfolding content
empty q b h = cc

has_no_blob : IsAddressed memory_disk toy root state.fs
has_no_blob digits b e = absurd (
    empty (hex_place root digits) b (
      sym (
        content-place_ne upload (hex_place root digits) (text "layer") []
          (upload≢hex_place root (text "u1") digits))
      ∙ e))

completes :
    (registry_handler toy
      (λ l. l)
      (λ s l. ok s)
      (complete (text "sha256:7000000000000000000000000000000000000000000000000000000000000000"))
      state).0.status
    ≡ created_201
unfolding registry_handler handle_request authenticate ensure_write_allowed may_write route
    complete_upload built ◌>>=◌ on_fs with_root join complete_at sha256_file receive write_frames
    validate_digest blob_path content erase get_token lookup can get_bindings_for_subject entries
    get_policy decimal
completes = refl

-- the digits of another length
abbrev other_digest : Text
other_digest = text "sha256:8000000000000000000000000000000000000000000000000000000000000000"

rejects :
    (registry_handler toy (λ l. l) (λ s l. ok s) (complete other_digest) state).0.status
    ≡ bad_request_400
unfolding registry_handler handle_request authenticate ensure_write_allowed may_write route
    complete_upload built ◌>>=◌ on_fs with_root join complete_at sha256_file receive write_frames
    validate_digest blob_path content erase get_token lookup can get_bindings_for_subject entries
    get_policy decimal
rejects = refl

registry_handler-IsAddressed_example :
    IsAddressed memory_disk toy root
      (registry_handler toy
        (λ l. l)
        (λ s l. ok s)
        (complete (text "sha256:7000000000000000000000000000000000000000000000000000000000000000"))
        state).1.fs
registry_handler-IsAddressed_example =
    registry_handler-IsAddressed memory_disk toy (λ l. l) (λ s l. ok s)
      (complete (text "sha256:7000000000000000000000000000000000000000000000000000000000000000"))
      state u2-IsName names_entry has_no_blob

abbrev passwd : Place
passwd = text "passwd" ∷ text "etc" ∷ []

-- a disk with a file that is not the registry's
abbrev shared_state : RegistryState memory memory_disk
shared_state = record state { fs = place passwd (text "root") [] }

there_too : content (walk [] (names (text "/etc/passwd"))) shared_state.fs ≡ some (text "root")
unfolding content
there_too = refl

patches_too :
    (patch_upload (text "team/web") (text "/etc/passwd") (complete hex).body shared_state).0
    ≡ ok (accepted (text "team/web") (text "/etc/passwd") 6)
unfolding patch_upload built ◌>>=◌ on_fs with_root join receive write_frames content erase
patches_too = refl
