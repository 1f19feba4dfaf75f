-- ===== src/Images.antt =====
-- The image registry, crates/r4a-git-registry/src/registry.rs: its state, its answers, its keys in the
-- tree `registry_meta` and its places on the disk. A handler is an action that may fail: `not_found`
-- and `forbidden` are the `StatusCode` of the error, any other error is answered 500.
pub mod Auth
pub mod Blobs
pub mod Manifests
pub mod Keys
pub mod Requests
pub mod Addressed
pub mod Integrity
pub mod Escape
pub mod Pulls
use rust4eska.Prelude.{
  ℕ, ◌≡◌, arith, Text, text, text_eq, nat_eq, Option, none, some, List, [], ◌∷◌, ◌++◌, ◌<>◌, Result,
  ok, err, Error, Exec, Bool, true, false, not, ◌&&◌, ◌||◌, ◌==◌, all, if◌then◌else◌, leb, nat_beq,
  length, take, strip_prefix, is_digit, bind,
}
use rust4eska.Backend.{Backend}
use rust4eska.Store.{Store}
use rust4eska.Files.{Disk, Place, join}

pub record RegistryState (B : Backend) (D : Disk) : Type 0 where
  pub root : Place
  pub store : Store B
  pub fs : D.Fs

pub data Method : Type 0 where
  get head post put patch delete other : Method

pub data Status : Type 0 where
  ok_200 created_201 accepted_202 bad_request_400 unauthorized_401 forbidden_403 not_found_404
        method_not_allowed_405 internal_error_500 :
      Status

pub record Response : Type 0 where
  pub status : Status
  pub api_version : Text
  pub location : Option Text
  pub content_range : Option Text
  pub upload_uuid : Option Text
  pub content_digest : Option Text
  pub content_type : Option Text
  pub content_length : Option ℕ
  pub www_authenticate : Option Text
  pub body : Text

-- `with_standard_headers(Response::builder().status(status).body(Body::empty())?)`
abbrev pub respond : Status → Response
respond status = record {
  status = status;
  api_version = text "registry/2.0";
  location = none;
  content_range = none;
  upload_uuid = none;
  content_digest = none;
  content_type = none;
  content_length = none;
  www_authenticate = none;
  body = [];
}

abbrev valid_header : (Text → Bool) → Option Text → Bool
valid_header test none = true
valid_header test (some value) = test value

-- `Response::builder()` with headers that come from a request, up to `body(..)?`, which fails if the
-- value of one of them is not valid
unfoldable pub built : Backend → Response → Result Response
built B r =
    if valid_header B.is_header_value r.location
      && valid_header B.is_header_value r.upload_uuid
      && valid_header B.is_header_value r.content_digest
      && valid_header B.is_header_value r.content_type
    then ok r
    else err Error.invalid

abbrev pub error_response : Status → Text → Response
error_response status msg = record (respond status) { body = msg }

-- a response that is built is the one that was asked for
pub built-ok : (B : Backend) (r a : Response) → built B r ≡ ok a → a ≡ r
unfolding built
built-ok B r a h = ground arith

abbrev pub unauthorized_response : Response
unauthorized_response = record (respond unauthorized_401) {
  www_authenticate = some (text "Basic realm=\"r4a-registry\", charset=\"UTF-8\"");
  body = text "authentication required";
}

abbrev pub json_response : Status → Text → Response
json_response status body = record (respond status) {
  content_type = some (text "application/json");
  content_length = some (length body);
  body = body;
}

abbrev pub tag_prefix : Text → Text
tag_prefix repo = text "repo:" ++ (repo ++ (0 ∷ text "tag:"))

abbrev pub tag_key : Text → Text → Text
tag_key repo tag = text "repo:" ++ (repo ++ (0 ∷ text "tag:" ++ tag))

abbrev pub manifest_key : Text → Text → Text
manifest_key repo digest = text "repo:" ++ (repo ++ (0 ∷ text "manifest:" ++ digest))

abbrev pub blobs_root : Place → Place
blobs_root root = text "sha256" ∷ text "blobs" ∷ root

abbrev pub uploads_dir : Place → Place
uploads_dir root = text "_uploads" ∷ root

-- `char::is_ascii_hexdigit`
abbrev is_hexdigit : ℕ → Bool
is_hexdigit c = is_digit c || (leb b'a' c && leb c b'f') || (leb b'A' c && leb c b'F')

abbrev pub hex_of : Text → Result Text
hex_of digest = elim (strip_prefix digest (text "sha256:")) [
  | some hex ↦ ok hex
  | none ↦ err Error.invalid
]

abbrev pub checked_hex : Text → Result (Unit {0})
checked_hex hex =
    if not (nat_beq (length hex) 64) || not (all is_hexdigit hex) then err Error.invalid else ok tt

unfoldable pub validate_digest : Text → Result (Unit {0})
validate_digest digest = bind (hex_of digest) checked_hex

-- where the blob of some digits lies; both names are of digits, so that joining adds them
abbrev pub hex_place : Place → Text → Place
hex_place root hex = hex ∷ take 2 hex ∷ blobs_root root

unfoldable pub blob_path : Place → Text → Result Place
unfolding validate_digest
blob_path root digest =
    bind (hex_of digest) λ hex. bind (validate_digest digest) λ u. ok (hex_place root hex)

module _ {B : Backend} {D : Disk} where
  -- an action of the file system
  unfoldable pub on_fs : {A : Type 0} → Exec D.Fs A → Exec (RegistryState B D) A
  on_fs m s = let (r, fs') = m s.fs in (r, record s { fs = fs' })

  -- an action of the database of the store
  unfoldable pub on_meta : {A : Type 0} → Exec B.Db A → Exec (RegistryState B D) A
  on_meta m s = let (r, db') = m s.store.db in (r, record s { store = record s.store { db = db' } })

  unfoldable pub with_root :
      {A : Type 0} → (Place → Exec (RegistryState B D) A) → Exec (RegistryState B D) A
  with_root f s = f s.root s
