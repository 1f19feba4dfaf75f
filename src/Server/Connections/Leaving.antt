-- ===== src/Server/Connections/Leaving.antt =====
-- What `disconnect_handler` leaves.
use rust4eska.Prelude.{
  ◌≡◌, ◌≢◌, refl, ap, ◌∙◌, ◌⊎◌, inl, inr, Text, text, text_eq, nat_eq, Option, none, some,
  Result-cases, Option-cases, ok, Bool-cases, true, arith, ◌==◌, ◌&&◌, if◌then◌else◌,
}
use rust4eska.Models.{Verb, Resource, Connection}
use rust4eska.Backend.{Backend}
use rust4eska.Store.{Store}
use rust4eska.Store.Entities.{get_connection, delete_connection}
use rust4eska.Store.Rbac.{can}
use rust4eska.Server.{AppState}
use rust4eska.Server.Auth.{Auth, token, secret}
use rust4eska.Server.Reply.{
  Failure, Handler, done, failed, forbidden, not_found, internal_error, guard, expect, go_on,
  reading, storing,
}
use rust4eska.Server.Connections.{disconnect_handler, may}

module _ (B : Backend) where
  -- A deletion that succeeds takes one entry away and leaves the others.
  delete_connection_outcome :
      (id tree key : Text) (s : Store B)
      → (delete_connection B id s).0 ≡ ok tt
      → B.db_get tree key (delete_connection B id s).1.db
        ≡ (if text "connections" == tree && id == key then ok none else B.db_get tree key s.db)
  unfolding delete_connection
  delete_connection_outcome id tree key s h =
      let removed = (B.db_remove (text "connections") id s.db).1 in
      ground
        (arith, B.get-remove (text "connections") id s.db tree key, B.get-flush tree key removed)

  module _ (auth : Auth) (id : Text) (state : AppState B) where
    -- what the handler does once it may
    abbrev permitted : Handler (AppState B) (Unit {0})
    permitted s =
        let (r, s') = reading B (get_connection B id) s in
        go_on r
          (λ found s.
            let (q, s') = expect not_found found s in
            go_on q (λ c. storing B (delete_connection B id)) s')
          s'

    disconnect-cases :
        (disconnect_handler B auth id state ≡ (failed forbidden, state))
        ⊎ ((may B Verb.delete auth state ≡ true)
            × (disconnect_handler B auth id state ≡ permitted state))
    unfolding disconnect_handler
    disconnect-cases = of_auth auth
      where
        of_auth :
            (a : Auth)
            → (disconnect_handler B a id state ≡ (failed forbidden, state))
              ⊎ ((may B Verb.delete a state ≡ true)
                  × (disconnect_handler B a id state ≡ permitted state))
        of_auth secret = inr (refl, refl)
        of_auth (token t) =
            elim (Bool-cases (can B state.store t.username Verb.delete Resource.connections none)) [
              | inr barred ↦ rw (barred, disconnect_handler, guard, may) (inl refl)
              | inl may_go ↦ rw (may_go, disconnect_handler, guard, may) (inr (refl, refl))
            ]

    permitted-cases :
        ((permitted state).0 ≡ failed internal_error)
        ⊎ ((permitted state ≡ (failed not_found, state))
            × (get_connection B id state.store ≡ ok none))
        ⊎ ((c : Connection) × (get_connection B id state.store ≡ ok (some c))
            × ((delete_connection B id state.store).0 ≡ ok tt)
            × (permitted state
                ≡ (done tt, record state { store = (delete_connection B id state.store).1 })))
    permitted-cases = elim (Result-cases (get_connection B id state.store)) [
      | inl (e, p) ↦ inl (rw (p, permitted) refl)
      | inr (found, p) ↦ elim (Option-cases found) [
        | inl q ↦ inr (inl (rw (p, q, permitted) (refl, refl)))
        | inr (c, q) ↦ elim (Result-cases (delete_connection B id state.store).0) [
          | inl (e, r) ↦ inl (rw (p, q, r, permitted) refl)
          | inr (u, r) ↦
              inr (
                inr
                  (c, p ∙ ap (λ (o : Option Connection). ok o) q, r, rw (p, q, r, permitted) refl))
        ]
      ]
    ]

    -- A client that is disconnected was connected and the caller was permitted to; its entry is gone,
    -- and no other entry of the database changes.
    pub disconnect_handler-gone :
        (tree key : Text)
        → (disconnect_handler B auth id state).0 ≡ done tt
        → (may B Verb.delete auth state ≡ true)
          × ((c : Connection) × (get_connection B id state.store ≡ ok (some c)))
          × (B.db_get tree key (disconnect_handler B auth id state).1.store.db ≡ (
              if text "connections" == tree && id == key
              then ok none
              else B.db_get tree key state.store.db))
    disconnect_handler-gone tree key h = elim disconnect-cases [
      | inl p ↦ absurd (ground arith)
      | inr (may_go, p) ↦ elim permitted-cases [
        | inl e ↦ absurd (ground arith)
        | inr rest ↦ elim rest [
          | inl (q, missing) ↦ absurd (ground arith)
          | inr (c, found, deleted, q) ↦ (
            may_go,
            (c, found),
            rw (p ∙ q) (delete_connection_outcome id tree key state.store deleted),
          )
        ]
      ]
    ]

    -- A disconnection that is refused, not one that fails in the database, changes nothing; the reason is
    -- a missing permission, or that no connection has the id.
    pub disconnect_handler_refused :
        (why : Failure)
        → (disconnect_handler B auth id state).0 ≡ failed why
        → why ≢ internal_error
        → ((disconnect_handler B auth id state).1 ≡ state)
          × ((why ≡ forbidden) ⊎ ((why ≡ not_found) × (get_connection B id state.store ≡ ok none)))
    disconnect_handler_refused why h other = elim disconnect-cases [
      | inl p ↦ (ap (λ r. r.1) p, inl (ground arith))
      | inr (may_go, p) ↦ elim permitted-cases [
        | inl e ↦ absurd (ground arith)
        | inr rest ↦ elim rest [
          | inl (q, missing) ↦ (ap (λ r. r.1) (p ∙ q), inr (ground arith, missing))
          | inr (c, found, deleted, q) ↦ absurd (ground arith)
        ]
      ]
    ]
