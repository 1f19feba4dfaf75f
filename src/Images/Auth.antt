-- ===== src/Images/Auth.antt =====
-- Who asks the image registry: `authenticate` and `ensure_write_allowed` of
-- crates/r4a-git-registry/src/registry.rs.
use rust4eska.Prelude.{
  Text, text, text_eq, nat_eq, Option, none, some, Result, ok, err, Error, Bool, false, ◌||◌,
  if◌then◌else◌, strip_prefix, bind,
}
unfoldable use rust4eska.Prelude.{split_once, from_utf8}
use rust4eska.Models.{Token, User, Verb, Resource}
use rust4eska.Backend.{Backend}
use rust4eska.Crypto.{Crypto}
use rust4eska.Store.{Store, get_as}
use rust4eska.Store.Entities.{get_token}
use rust4eska.Store.Rbac.{can}

pub data AuthIdentity : Type 0 where
  token : Token → AuthIdentity
  user : Text → AuthIdentity

-- the subject that is checked
abbrev pub subject_of : AuthIdentity → Text
subject_of (token t) = t.username
subject_of (user username) = username

module _ (B : Backend) (C : Crypto) where
  abbrev pub check_password : Text → Option User → Result Bool
  check_password password none = ok false
  check_password password (some u) = C.verify_password password u.password_hash

  unfoldable pub verify_user_password : Text → Text → Store B → Result Bool
  verify_user_password username password store =
      bind (get_as B B.user_json (text "users") username store) (check_password password)

  abbrev pub by_token : Option Token → Option AuthIdentity
  by_token none = none
  by_token (some t) = some (token t)

  abbrev pub by_password : Store B → Option (Text × Text) → Result (Option AuthIdentity)
  by_password store none = ok none
  by_password store (some (username, password)) =
      bind (verify_user_password username password store)
        λ verified. ok (if verified then some (user username) else none)

  abbrev pub basic : Store B → Text → Result (Option AuthIdentity)
  basic store encoded =
      bind (C.base64_decode encoded)
        λ decoded. bind (from_utf8 decoded) λ creds. by_password store (split_once creds (text ":"))

  abbrev pub by_scheme : Store B → Option Text → Option Text → Result (Option AuthIdentity)
  by_scheme store (some token_id) encoded =
      bind (get_token B token_id store) (λ found. ok (by_token found))
  by_scheme store none (some encoded) = basic store encoded
  by_scheme store none none = ok none

  -- The header is `None` where it is missing or is no text.
  unfoldable pub authenticate : Option Text → Store B → Result (Option AuthIdentity)
  unfolding verify_user_password from_utf8
  authenticate none store = ok none
  authenticate (some auth_str) store =
      by_scheme store (strip_prefix auth_str (text "Bearer "))
        (strip_prefix auth_str (text "Basic "))

module _ (B : Backend) where
  unfoldable pub may_write : AuthIdentity → Store B → Bool
  may_write auth store =
      let username = subject_of auth in
      can B store username Verb.create Resource.registry none
      || can B store username Verb.update Resource.registry none
      || can B store username Verb.delete Resource.registry none
      || can B store username Verb.all Resource.registry none
      || can B store username Verb.all Resource.all none

  unfoldable pub ensure_write_allowed : AuthIdentity → Store B → Result (Unit {0})
  ensure_write_allowed auth store = if may_write auth store then ok tt else err Error.forbidden
