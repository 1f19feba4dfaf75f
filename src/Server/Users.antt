-- ===== src/Server/Users.antt =====
-- The handlers of binaries/r4a-server/src/main.rs for users, who sign in to the image registry. `trim`
-- is `str::trim`, which follows the Unicode tables; the salt comes from outside.
pub mod SignIn
use rust4eska.Prelude.{
  ℕ, Text, text, text_eq, nat_eq, Option, none, some, List, [], ◌∷◌, ◌++◌, Result, ok, err, Bool,
  true, false, not, ◌&&◌, ◌||◌, ◌==◌, lookup, leb, length, all, is_digit, is_empty, is_some,
  nat_beq, map, bind,
}
use rust4eska.Models.{Verb, Resource, Rule, Policy, Binding, Token, User}
use rust4eska.Backend.{Backend}
use rust4eska.Crypto.{Crypto}
use rust4eska.Store.{Store, on_db, delete, list_as}
use rust4eska.Store.Entities.{put_policy, put_binding}
use rust4eska.Store.Rbac.{can}
use rust4eska.Server.{AppState}
use rust4eska.Server.Reply.{
  Handler, done, failed, forbidden, bad_request, not_found, conflict, finish, guard, expect,
  reading, storing, ◌>>=◌, ◌>>◌,
}

pub record UserCreateRequest : Type 0 where
  pub username : Text
  pub password : Text
  pub verbs : List Verb
  pub resources : List Resource
  pub resource_names : Option (List Text)

-- `is_ascii_alphanumeric() || matches!(c, '-' | '_' | '.')`
abbrev is_username_char : ℕ → Bool
is_username_char c =
    is_digit c
    || (leb b'a' c && leb c b'z')
    || (leb b'A' c && leb c b'Z')
    || nat_beq c b'-'
    || nat_beq c b'_'
    || nat_beq c b'.'

unfoldable pub is_username : Text → Bool
is_username username =
    not (is_empty username || not (leb (length username) 64) || not (all is_username_char username))

abbrev pub user_policy : UserCreateRequest → Text → Policy
user_policy req username = record {
  id = text "policy-user-" ++ username;
  rules =
      record { verbs = req.verbs; resources = req.resources; resource_names = req.resource_names }
      ∷ [];
}

abbrev pub user_binding : Text → Binding
user_binding username = record {
  id = text "binding-user-" ++ username;
  subject = username;
  policy_id = text "policy-user-" ++ username;
}

module _ (B : Backend) where
  open B use {db_get, db_insert, db_take, db_flush, user_json}

  abbrev pub may_users : Verb → Token → AppState B → Bool
  may_users verb t state = can B state.store t.username verb Resource.tokens none

  unfoldable pub users_list_handler : Token → Handler (AppState B) (List Text)
  users_list_handler t = do
    guard forbidden (may_users Verb.list t)
    users ← reading B (list_as B user_json (text "users"))
    finish (map (λ (u : User). u.username) users)

  -- the tests of `user_create_handler` and the hash of the password
  unfoldable pub admit_user :
      Crypto → Text → Token → UserCreateRequest → Text → Handler (AppState B) Text
  admit_user C salt t req username = do
    guard forbidden (may_users Verb.create t)
    guard bad_request (λ state. is_username username)
    guard bad_request (λ state. leb 8 (length req.password))
    found ← reading B (λ store. db_get (text "users") username store.db)
    guard conflict (λ state. not (is_some found))
    reading B (λ store. C.hash_password req.password salt)

  -- the last write, which is not sent to the masters
  unfoldable pub save_user : User → Handler (AppState B) (Unit {0})
  save_user user = do
    value ← reading B (λ store. user_json.to_vec user)
    storing B (on_db B (db_insert (text "users") user.username value))
    storing B (on_db B db_flush)

  -- its writes: a failure leaves what was written before it
  unfoldable pub write_user : UserCreateRequest → User → Handler (AppState B) (Unit {0})
  write_user req user = do
    storing B (put_policy B (user_policy req user.username))
    storing B (put_binding B (user_binding user.username))
    save_user user

  unfoldable pub user_create_handler :
      Crypto → (Text → Text) → Text → Token → UserCreateRequest → Handler (AppState B) Text
  user_create_handler C trim salt t req = do
    password_hash ← admit_user C salt t req (trim req.username)
    write_user req (record { username = trim req.username; password_hash = password_hash })
    finish (trim req.username)

  unfoldable pub user_delete_handler :
      (Text → Text) → Token → List (Text × Text) → Handler (AppState B) (Unit {0})
  user_delete_handler trim t query = do
    guard forbidden (may_users Verb.delete t)
    asked ← expect bad_request (lookup (text "username") query)
    guard bad_request (λ state. not (is_empty (trim asked)))
    removed ← storing B (on_db B (db_take (text "users") (trim asked)))
    guard not_found (λ state. is_some removed)
    storing B (delete B (text "policies") (text "policy-user-" ++ trim asked))
    storing B (delete B (text "bindings") (text "binding-user-" ++ trim asked))
    storing B (on_db B db_flush)
