-- ===== src/Server/Users/SignIn.antt =====
-- Users whom the server creates sign in to the image registry: binaries/r4a-server/src/main.rs and
-- crates/r4a-git-registry/src/registry.rs over one store.
use mathlib.Core.Path.{ap₂}
use rust4eska.Prelude.{
  ◌≡◌, ap, subst, sym, ◌∙◌, inl, inr, Text, text, text_eq, nat_eq, some, Result-cases, ok,
  Bool-cases, true, not, arith, leb, length, is_some, eq_refl,
}
use rust4eska.Models.{Verb, Token, User}
use rust4eska.Backend.{Backend}
use rust4eska.Crypto.{Crypto}
use rust4eska.Store.{Store, get_as}
use rust4eska.Store.Entities.{put_policy, put_binding}
use rust4eska.Store.Entries.{HasEntry, HasEntry-get_as}
use rust4eska.Server.{AppState}
use rust4eska.Server.Reply.{Handled, Handled-cases, done}
use rust4eska.Server.Users.{
  UserCreateRequest, may_users, is_username, admit_user, save_user, write_user, user_policy,
  user_binding, user_create_handler,
}
use rust4eska.Images.Auth.{verify_user_password}

module _ (B : Backend) where
  admit_user-done :
      (C : Crypto) (salt : Text) (t : Token) (req : UserCreateRequest) (username hash : Text)
      (state : AppState B)
      → (admit_user B C salt t req username state).0 ≡ done hash
      → C.hash_password req.password salt ≡ ok hash
  unfolding admit_user
  admit_user-done C salt t req username hash state h =
      elim (Bool-cases (may_users B Verb.create t state)) [
        | inr q ↦ absurd (ground (arith, h, q))
        | inl q ↦ elim (Bool-cases (is_username username)) [
          | inr r ↦ absurd (ground (arith, h, q, r))
          | inl r ↦ elim (Bool-cases (leb 8 (length req.password))) [
            | inr l ↦ absurd (ground (arith, h, q, r, l))
            | inl l ↦ elim (Result-cases (B.db_get (text "users") username state.store.db)) [
              | inl (e, g) ↦ absurd (ground (arith, h, q, r, l, g))
              | inr (found, g) ↦ elim (Bool-cases (not (is_some found))) [
                | inr c ↦ absurd (ground (arith, h, q, r, l, g, c))
                | inl c ↦ elim (Result-cases (C.hash_password req.password salt)) [
                  | inl (e, p) ↦ absurd (ground (arith, h, q, r, l, g, c, p))
                  | inr (it, p) ↦ ground (arith, h, q, r, l, g, c, p)
                ]
              ]
            ]
          ]
        ]
      ]

  save_user-HasEntry :
      (user : User) (state : AppState B)
      → (save_user B user state).0 ≡ done tt
      → HasEntry B B.user_json (text "users") user.username (save_user B user state).1.store.db user
  unfolding save_user
  save_user-HasEntry user state h =
      let tree : Text = text "users" in
      elim (Result-cases (B.user_json.to_vec user)) [
        | inl (e, p) ↦ absurd (ground (arith, h, p))
        | inr (value, p) ↦
            let inserted = B.db_insert tree user.username value state.store.db in
            elim (Result-cases inserted.0) [
              | inl (e, q) ↦ absurd (ground (arith, h, p, q))
              | inr (u, q) ↦ elim (Result-cases (B.db_flush inserted.1).0) [
                | inl (e, r) ↦ absurd (ground (arith, h, p, q, r))
                | inr (v, r) ↦ record {
                  blob = value;
                  stored = ground (
                    arith,
                    p,
                    q,
                    r,
                    B.get-flush tree user.username inserted.1,
                    B.get-insert tree user.username value state.store.db tree user.username,
                    eq_refl tree,
                    eq_refl user.username,
                  );
                  decodes = B.user_json.from_slice-to_vec user value p;
                }
              ]
            ]
      ]

  write_user-HasEntry :
      (req : UserCreateRequest) (user : User) (state : AppState B)
      → (write_user B req user state).0 ≡ done tt
      → HasEntry B B.user_json
          (text "users")
          user.username
          (write_user B req user state).1.store.db
          user
  unfolding write_user
  write_user-HasEntry req user state h =
      let first = put_policy B (user_policy req user.username) state.store in
      elim (Result-cases first.0) [
        | inl (e, p) ↦ absurd (ground (arith, h, p))
        | inr (u, p) ↦
            let second = put_binding B (user_binding user.username) first.1 in
            elim (Result-cases second.0) [
              | inl (e, q) ↦ absurd (ground (arith, h, p, q))
              | inr (v, q) ↦
                  let before : AppState B = record state { store = second.1 } in
                  let same : write_user B req user state ≡ save_user B user before =
                    ground (arith, p, q) in
                  subst
                    (λ (r : Handled (Unit {0}) × AppState B).
                      HasEntry B B.user_json (text "users") user.username r.1.store.db user)
                    (sym same)
                    (save_user-HasEntry user before
                      (ap (λ (r : Handled (Unit {0}) × AppState B). r.0) (sym same) ∙ h))
            ]
      ]

  verify_user_password-found :
      (C : Crypto) (user : User) (password : Text) (store : Store B)
      → get_as B B.user_json (text "users") user.username store ≡ ok (some user)
      → C.verify_password password user.password_hash ≡ ok true
      → verify_user_password B C user.username password store ≡ ok true
  unfolding verify_user_password
  verify_user_password-found C user password store e v = rw e v

  -- A user whom `user_create_handler` creates signs in to the image registry: if it answers with a
  -- name, this is the name that was asked for, trimmed, and `verify_user_password` with that name and
  -- the password of the request is true right after it.
  pub verify_user_password-user_create_handler :
      (C : Crypto) (trim : Text → Text) (salt : Text) (t : Token) (req : UserCreateRequest)
      (username : Text) (state : AppState B)
      → (user_create_handler B C trim salt t req state).0 ≡ done username
      → (username ≡ trim req.username)
        × (verify_user_password B C username req.password
              (user_create_handler B C trim salt t req state).1.store
            ≡ ok true)
  unfolding user_create_handler
  verify_user_password-user_create_handler C trim salt t req username state h =
      let admitted = admit_user B C salt t req (trim req.username) state in
      elim (Handled-cases admitted.0) [
        | inl (why, p) ↦ absurd (ground (arith, h, p))
        | inr (hash, p) ↦
            let user : User = record { username = trim req.username; password_hash = hash } in
            let written = write_user B req user admitted.1 in
            elim (Handled-cases written.0) [
              | inl (why, q) ↦ absurd (ground (arith, h, p, q))
              | inr (u, q) ↦
                  let is_hash = admit_user-done C salt t req (trim req.username) hash state p in
                  let entry =
                    HasEntry-get_as B B.user_json (text "users") user.username written.1.store user
                      (write_user-HasEntry req user admitted.1 q) in
                  let verified = C.verify_password-hash_password req.password salt hash is_hash in
                  let named : username ≡ trim req.username = ground (arith, h, p, q) in
                  let is_state : (user_create_handler B C trim salt t req state).1 ≡ written.1 =
                    ground (arith, p, q) in
                  (
                    named,
                    subst
                        (λ (r : Text × AppState B).
                          verify_user_password B C r.0 req.password r.1.store ≡ ok true)
                        (ap₂ (λ (n : Text) (r : AppState B). (n, r)) (sym named) (sym is_state))
                        (verify_user_password-found C user req.password written.1.store entry
                          verified),
                  )
            ]
      ]
