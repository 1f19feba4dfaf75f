-- ===== src/Tests/Users.antt =====
-- A user who is created and signs in.
use rust4eska.Prelude.{◌≡◌, refl, text, none, [], ◌∷◌, ok, true}
use rust4eska.Models.{Verb, Resource}
use rust4eska.Backend.Memory.{memory, lookup, without, entries, policy}
use rust4eska.Crypto.Toy.{toy}
use rust4eska.Store.{put, is_sync_tree_allowed}
use rust4eska.Store.Entities.{get_bindings_for_subject, get_policy, put_policy, put_binding}
use rust4eska.Store.Rbac.{can}
use rust4eska.Server.{AppState}
use rust4eska.Server.Reply.{done}
use rust4eska.Server.Users.{
  UserCreateRequest, is_username, user_create_handler, admit_user, write_user, save_user,
}
use rust4eska.Server.Users.SignIn.{verify_user_password-user_create_handler}
use rust4eska.Images.Auth.{verify_user_password}
use rust4eska.Tests.Sample.{state, table, t1}

-- the sample's policy, made wide
abbrev open_state : AppState memory
open_state = record state {
  store = record state.store {
    db =
        (
          text "policies",
          text "p1",
          policy (record {
            id = text "p1";
            rules =
                record {
                  verbs = Verb.all ∷ [];
                  resources = Resource.tokens ∷ [];
                  resource_names = none;
                }
                ∷ [];
          }),
        )
        ∷ table;
  };
}

abbrev request : UserCreateRequest
request = record {
  username = text "bob";
  password = text "longenough";
  verbs = Verb.get ∷ [];
  resources = Resource.registry ∷ [];
  resource_names = none;
}

creates :
    (user_create_handler memory toy (λ s. s) (text "salt") t1 request open_state).0
    ≡ done (text "bob")
unfolding user_create_handler admit_user is_username write_user save_user put_policy put_binding put
    can get_bindings_for_subject get_policy lookup without entries is_sync_tree_allowed
creates = refl

verify_user_password-user_create_handler_example :
    (text "bob" ≡ text "bob")
    × (verify_user_password memory toy
          (text "bob")
          (text "longenough")
          (user_create_handler memory toy (λ s. s) (text "salt") t1 request open_state).1.store
        ≡ ok true)
verify_user_password-user_create_handler_example =
    verify_user_password-user_create_handler memory toy (λ s. s) (text "salt") t1 request
      (text "bob") open_state creates
