-- ===== src/Server/Auth.antt =====
-- The extractors that authenticate a request, binaries/r4a-server/src/main.rs. A header is `None`
-- where it is missing or is no text; a rejection is `None` or `false`. `constant_time_eq` is equality
-- of bytes.
use rust4eska.Prelude.{
  ◌≡◌, ◌≢◌, ◌↔◌, inl, inr, ap, eq_of_some, ◌∷◌, Text, text, text_eq, nat_eq, Option, none, some,
  Result, ok, err, Bool, true, false, not, ◌&&◌, ◌==◌, ◌++◌, is_empty, strip_prefix, arith,
  Option-cases, append-strip_prefix, list_beq_iff, if◌then◌else◌, [],
}
use rust4eska.Models.{Token}
use rust4eska.Backend.{Backend}
use rust4eska.Store.Entities.{get_token}
use rust4eska.Store.Entries.{HasEntry, get_as-HasEntry, HasEntry-get_as}
use rust4eska.Server.{AppState}

pub data Auth : Type 0 where
  token : Token → Auth
  secret : Auth

-- the test of a secret against a header
abbrev matches_secret : Text → Option Text → Bool
matches_secret expected none = false
matches_secret expected (some auth_str) = auth_str == expected

secret_matches :
    (expected auth_str : Text)
    → ((auth_str == expected) ≡ true) ↔ (auth_str ≡ expected)
    → ((not (is_empty expected) && auth_str == expected) ≡ true)
      ↔ ((expected ≢ []) × (some auth_str ≡ some expected))
secret_matches [] auth_str e = ground arith
secret_matches (c ∷ s) auth_str e = ground arith

module _ (B : Backend) where
  unfoldable pub require_secret : AppState B → Option Text → Bool
  require_secret state header = matches_secret state.cluster_secret header

  unfoldable pub require_admin_secret : AppState B → Option Text → Bool
  require_admin_secret state header =
      not (is_empty state.admin_secret) && matches_secret state.admin_secret header

  -- `if let Ok(Some(token))`
  abbrev found_token : Result (Option Token) → Option Token
  found_token (ok found) = found
  found_token (err e) = none

  abbrev bearer_token : AppState B → Option Text → Option Token
  bearer_token state none = none
  bearer_token state (some token_str) = found_token (get_token B token_str state.store)

  unfoldable pub require_token : AppState B → Option Text → Option Token
  unfolding get_token
  require_token state none = none
  require_token state (some auth_str) = bearer_token state (strip_prefix auth_str (text "Bearer "))

  -- the extractor `Auth`: a token first, then the cluster secret
  unfoldable pub auth : AppState B → Option Text → Option Text → Option Auth
  unfolding require_token
  auth state authorization header = elim (require_token state authorization) [
    | some t ↦ some (token t)
    | none ↦ if matches_secret state.cluster_secret header then some secret else none
  ]

  module _ (state : AppState B) where
    found_token-ok :
        (r : Result (Option Token)) (t : Token) → found_token r ≡ some t → r ≡ ok (some t)
    found_token-ok (ok found) t h = ground arith
    found_token-ok (err e) t h = cc

    -- A request is taken for the holder of a token exactly if its header is "Bearer " and the id of
    -- a token that is stored under that id.
    pub require_token_iff :
        (header : Option Text) (t : Token)
        → (require_token state header ≡ some t) ↔ (
            (id : Text) × (header ≡ some (text "Bearer " ++ id))
            × HasEntry B B.token_json (text "tokens") id state.store.db t)
    unfolding require_token get_token
    require_token_iff none t = (λ h. absurd (cc h), λ (id, e, s). absurd (cc e))
    require_token_iff (some auth_str) t = (sound, λ (id, e, s). complete id e s)
      where
        sound :
            require_token state (some auth_str) ≡ some t
            → (id : Text) × (some auth_str ≡ some (text "Bearer " ++ id))
              × HasEntry B B.token_json (text "tokens") id state.store.db t
        sound h = elim (Option-cases (strip_prefix auth_str (text "Bearer "))) [
          | inl e ↦ absurd (ground arith)
          | inr (id, e) ↦ (
            id,
            ap (λ (x : Text). some x) (append-strip_prefix auth_str (text "Bearer ") id e),
            get_as-HasEntry B B.token_json (text "tokens") id state.store t
                (found_token-ok (get_token B id state.store) t (rw (e, require_token) at h)),
          )
        ]

        complete :
            (id : Text)
            → some auth_str ≡ some (text "Bearer " ++ id)
            → HasEntry B B.token_json (text "tokens") id state.store.db t
            → require_token state (some auth_str) ≡ some t
        complete id e s =
            rw (eq_of_some e)
              (rw (HasEntry-get_as B B.token_json (text "tokens") id state.store t s))

    -- The admin extractor passes exactly the admin secret, and nothing while that is empty.
    pub require_admin_secret_iff :
        (header : Option Text)
        → (require_admin_secret state header ≡ true)
          ↔ ((state.admin_secret ≢ []) × (header ≡ some state.admin_secret))
    unfolding require_admin_secret
    require_admin_secret_iff none = ground arith
    require_admin_secret_iff (some auth_str) =
        secret_matches state.admin_secret auth_str (list_beq_iff auth_str state.admin_secret)
