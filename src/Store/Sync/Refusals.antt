-- ===== src/Store/Sync/Refusals.antt =====
-- Which requests `sync_handler` of crates/r4a-store/src/lib.rs turns away.
use rust4eska.Prelude.{
  ◌≡◌, ◌≢◌, ◌↔◌, ◌⊎◌, inl, inr, refl, ap, sym, ◌∷◌, Text, text, text_eq, nat_eq, Option, none, some,
  [], Bool, true, false, ◌&&◌, ◌||◌, ◌==◌, is_empty, arith, list_beq_iff, Bool-cases, eq_of_some,
  not, ◌∙◌, Option-cases, Result-cases,
}
use rust4eska.Backend.{Backend}
use rust4eska.Store.{Store, SyncRequest, is_sync_tree_allowed}
use rust4eska.Store.Sync.{
  Status, unauthorized_401, forbidden_403, is_auth, sync_handler, sync_write, apply_sync,
}

-- the six trees that masters replicate
unfoldable pub is_replicated : Text → Bool
is_replicated tree =
    text "tokens" == tree
    || (text "bindings" == tree
        || (text "policies" == tree
            || (text "manifests" == tree
                || (text "vault" == tree || text "vault_configs" == tree))))

-- a header is received, and reads as the secret
abbrev pub Reads : (Text → Option Text) → Option Text → Text → Type 0
Reads to_str header secret = (bytes : Text) × (header ≡ some bytes) × (to_str bytes ≡ some secret)

or_false : (b : Bool) → (b || false) ≡ b
or_false true = refl
or_false false = refl

pub is_sync_tree_allowed-is_replicated :
    (tree : Text) → is_sync_tree_allowed tree ≡ is_replicated tree
unfolding is_sync_tree_allowed is_replicated
is_sync_tree_allowed-is_replicated tree = rw or_false refl

both :
    (to_str : Text → Option Text) (secret bytes auth_str : Text)
    → to_str bytes ≡ some auth_str
    → ((not (is_empty secret) && auth_str == secret) ≡ true)
      ↔ ((secret ≢ []) × Reads to_str (some bytes) secret)
both to_str [] bytes auth_str e = (λ h. cc h, λ (n, r). absurd (n refl))
both to_str (c ∷ s) bytes auth_str e = (
  λ h. (λ p. cc p, (bytes, refl, e ∙ ap some ((list_beq_iff auth_str (c ∷ s)).0 h))),
  λ (n, (b, p, r)).
      (list_beq_iff auth_str (c ∷ s)).1 (eq_of_some (sym e ∙ ap to_str (eq_of_some p) ∙ r)),
)

pub is_auth_iff :
    (to_str : Text → Option Text) (secret : Text) (header : Option Text)
    → (is_auth to_str secret header ≡ true) ↔ ((secret ≢ []) × Reads to_str header secret)
unfolding is_auth
is_auth_iff to_str secret none = (λ e. cc e, λ (n, (bytes, e, r)). cc e)
is_auth_iff to_str secret (some bytes) = elim (Option-cases (to_str bytes)) [
  | inl e ↦ rw (e, is_auth) (λ h. cc h, λ (n, (b, p, r)). cc (p, r, e))
  | inr (auth_str, e) ↦ rw (e, is_auth) (both to_str secret bytes auth_str e)
]

is_auth_refused :
    (to_str : Text → Option Text) (secret : Text) (header : Option Text)
    → (is_auth to_str secret header ≡ false) ↔ ((secret ≡ []) ⊎ ¬ Reads to_str header secret)
is_auth_refused to_str secret header = (why secret, λ r. refused r)
  where
    why :
        (secret : Text)
        → is_auth to_str secret header ≡ false
        → (secret ≡ []) ⊎ ¬ Reads to_str header secret
    why [] h = inl refl
    why (c ∷ s) h = inr (λ r. cc ((is_auth_iff to_str (c ∷ s) header).1 ((λ e. cc e), r), h))

    refused : (secret ≡ []) ⊎ ¬ Reads to_str header secret → is_auth to_str secret header ≡ false
    refused r = elim (Bool-cases (is_auth to_str secret header)) [
      | inr h ↦ h
      | inl h ↦
          let (n, reads) = (is_auth_iff to_str secret header).0 h in
          elim r [ inl e ↦ absurd (n e) | inr u ↦ absurd (u reads) ]
    ]

module _ (B : Backend) where
  after_write_status :
      (req : SyncRequest B) (db : B.Db)
      → ((sync_write B req db).0 ≢ unauthorized_401) × ((sync_write B req db).0 ≢ forbidden_403)
  unfolding sync_write
  after_write_status req db = elim (Result-cases (B.db_open req.tree db)) [
    | inl (e, p) ↦ rw (p, sync_write) ((λ q. cc q), λ q. cc q)
    | inr (u, p) ↦ elim (Result-cases (apply_sync B req db).0) [
      | inl (e, q) ↦ ground arith
      | inr (v, q) ↦ ground arith
    ]
  ]

  -- which of its three tests the handler ends with
  answers :
      (to_str : Text → Option Text) (header : Option Text) (req : SyncRequest B) (s : Store B)
      → ((sync_handler B to_str header req s ≡ (unauthorized_401, s))
          ↔ (is_auth to_str s.cluster_secret header ≡ false))
        × ((sync_handler B to_str header req s ≡ (forbidden_403, s)) ↔ (
            (is_auth to_str s.cluster_secret header ≡ true)
            × (is_sync_tree_allowed req.tree ≡ false)))
  unfolding sync_handler
  answers to_str header req s = elim (Bool-cases (is_auth to_str s.cluster_secret header)) [
    | inr h ↦
        rw (h, sync_handler) ((λ _. refl, λ _. refl), (λ e. absurd (apart s e), λ (a, d). cc a))
    | inl h ↦ elim (Bool-cases (is_sync_tree_allowed req.tree)) [
      | inr k ↦
          rw (h, k, sync_handler)
            ((λ e. absurd (apart s (sym e)), λ a. cc a), (λ _. (refl, refl), λ _. refl))
      | inl k ↦
          let (x, y) = after_write_status req s.db in
          rw (h, k, sync_handler)
            (
              (λ e. absurd (x (ap (λ r. r.0) e)), λ a. cc a),
              (λ e. absurd (y (ap (λ r. r.0) e)), λ (a, d). cc d),
            )
    ]
  ]
    where
      apart :
          (s : Store B) → ◌≡◌ {A = Status × Store B} (unauthorized_401, s) (forbidden_403, s) → ⊥
      apart s e =
          let q : unauthorized_401 ≡ forbidden_403 = ap (λ (r : Status × Store B). r.0) e in cc q

  -- A request is answered 401 and changes nothing exactly if the cluster secret is empty or no header
  -- was received that reads as the secret; it is answered 403 and changes nothing exactly if the
  -- secret is not empty, the header reads as the secret, and the tree is not one of the six that are
  -- replicated.
  pub sync_handler_refuses :
      (to_str : Text → Option Text) (header : Option Text) (req : SyncRequest B) (s : Store B)
      → ((sync_handler B to_str header req s ≡ (unauthorized_401, s))
          ↔ ((s.cluster_secret ≡ []) ⊎ ¬ Reads to_str header s.cluster_secret))
        × ((sync_handler B to_str header req s ≡ (forbidden_403, s)) ↔ (
            (s.cluster_secret ≢ [])
            × Reads to_str header s.cluster_secret
            × (is_replicated req.tree ≡ false)))
  sync_handler_refuses to_str header req s =
      let (unauthorized, forbidden) = answers to_str header req s in
      let refused = is_auth_refused to_str s.cluster_secret header in
      let known = is_auth_iff to_str s.cluster_secret header in
      let same = is_sync_tree_allowed-is_replicated req.tree in
      (
        (λ e. refused.0 (unauthorized.0 e), λ r. unauthorized.1 (refused.1 r)),
        (
          λ e. let (a, d) = forbidden.0 e in let (n, reads) = known.0 a in (n, reads, sym same ∙ d),
          λ (n, reads, d). forbidden.1 (known.1 (n, reads), same ∙ d),
        ),
      )
