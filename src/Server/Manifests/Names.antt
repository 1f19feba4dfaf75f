-- ===== src/Server/Manifests/Names.antt =====
-- Which manifests are stored.
use rust4eska.Prelude.{
  ◌≡◌, ◌≢◌, ◌⊎◌, refl, ap, inl, inr, Text, text, text_eq, nat_eq, [], ◌∷◌, Result-cases, ok, Bool,
  Bool-cases, true, false, arith, ◌||◌, contains,
}
use rust4eska.Models.{Verb, Manifest, Token}
use rust4eska.Backend.{Backend}
use rust4eska.Store.Entities.{put_manifest}
use rust4eska.Store.Entries.{HasEntry}
use rust4eska.Store.Writes.{put_as-HasEntry}
use rust4eska.Server.{AppState}
use rust4eska.Server.Reply.{Failure, done, failed, forbidden, bad_request, internal_error, guard}
use rust4eska.Server.Manifests.{
  manifest_upsert_handler, is_manifest_name, has_two_dots, may_manifests,
}

is_manifest_name-parts :
    (name : Text)
    → is_manifest_name name ≡ true
    → (name ≢ []) × (contains name b'/' ≡ false) × (has_two_dots name ≡ false)
unfolding is_manifest_name
is_manifest_name-parts [] h = cc h
is_manifest_name-parts (c ∷ s) h = (λ e. cc e, ground arith, ground arith)

module _ (B : Backend) (trim : Text → Text) (t : Token) (manifest : Manifest)
    (state : AppState B) where
  abbrev after : AppState B
  after = (manifest_upsert_handler B trim t manifest state).1

  -- the permission that the handler asks for
  abbrev pub may_upsert : Bool
  may_upsert = may_manifests B Verb.create t state || may_manifests B Verb.update t state

  upsert-cases :
      ((manifest_upsert_handler B trim t manifest state ≡ (failed forbidden, state))
        × (may_upsert ≡ false))
      ⊎ ((manifest_upsert_handler B trim t manifest state ≡ (failed bad_request, state))
          × (is_manifest_name (trim manifest.app.name) ≡ false))
      ⊎ ((may_upsert ≡ true)
          × (is_manifest_name (trim manifest.app.name) ≡ true)
          × ((put_manifest B manifest state.store).0 ≡ ok tt)
          × (manifest_upsert_handler B trim t manifest state
              ≡ (done tt, record state { store = (put_manifest B manifest state.store).1 })))
      ⊎ ((manifest_upsert_handler B trim t manifest state).0 ≡ failed internal_error)
  unfolding manifest_upsert_handler
  upsert-cases = elim (Bool-cases may_upsert) [
    | inr barred ↦ inl (rw (barred, manifest_upsert_handler, guard) refl, barred)
    | inl may_go ↦ elim (Bool-cases (is_manifest_name (trim manifest.app.name))) [
      | inr bad ↦ inr (inl (rw (may_go, bad, manifest_upsert_handler, guard) refl, bad))
      | inl good ↦ elim (Result-cases (put_manifest B manifest state.store).0) [
        | inl (e, p) ↦ inr (inr (inr (rw (may_go, good, p, manifest_upsert_handler, guard) refl)))
        | inr (u, p) ↦
            inr (
              inr
                (inl (may_go, good, p, rw (may_go, good, p, manifest_upsert_handler, guard) refl)))
      ]
    ]
  ]

  -- A manifest that is accepted comes from a subject that may create or update manifests, its trimmed
  -- name is not empty and has neither a slash nor two dots in a row, and it is stored under its name.
  pub manifest_upsert_handler-HasEntry :
      (manifest_upsert_handler B trim t manifest state).0 ≡ done tt
      → (may_upsert ≡ true)
        × (trim manifest.app.name ≢ [])
        × (contains (trim manifest.app.name) b'/' ≡ false)
        × (has_two_dots (trim manifest.app.name) ≡ false)
        × HasEntry B B.manifest_json (text "manifests") manifest.app.name after.store.db manifest
  unfolding put_manifest
  manifest_upsert_handler-HasEntry h = elim upsert-cases [
    | inl (p, barred) ↦ absurd (ground arith)
    | inr rest ↦ elim rest [
      | inl (p, bad) ↦ absurd (ground arith)
      | inr more ↦ elim more [
        | inl (may_go, good, p, runs) ↦
            let (full, slash, dots) = is_manifest_name-parts (trim manifest.app.name) good in
            (
              may_go,
              full,
              slash,
              dots,
              rw (runs, after)
                  (put_as-HasEntry B B.manifest_json (text "manifests") manifest.app.name manifest
                    state.store p),
            )
        | inr e ↦ absurd (ground arith)
      ]
    ]
  ]

  -- A manifest that is refused for want of permission or for its name changes nothing, and
  -- the reason given is true.
  pub manifest_upsert_handler_refused :
      (why : Failure)
      → (manifest_upsert_handler B trim t manifest state).0 ≡ failed why
      → why ≢ internal_error
      → (after ≡ state)
        × (((why ≡ forbidden) × (may_upsert ≡ false))
            ⊎ ((why ≡ bad_request) × (is_manifest_name (trim manifest.app.name) ≡ false)))
  manifest_upsert_handler_refused why h other = elim upsert-cases [
    | inl (p, barred) ↦ (ap (λ x. x.1) p, inl (ground arith, barred))
    | inr rest ↦ elim rest [
      | inl (p, bad) ↦ (ap (λ x. x.1) p, inr (ground arith, bad))
      | inr more ↦ elim more [
        | inl (may_go, good, p, runs) ↦ absurd (ground arith)
        | inr e ↦ absurd (ground arith)
      ]
    ]
  ]
