-- ===== src/Server/Connections/Steps.antt =====
-- The steps of `connect_handler`: what each does to the pool, the peers and the labels.
use rust4eska.Prelude.{
  ℕ, ◌+◌, ◌≤◌, ◌≡◌, ◌⊎◌, refl, ap, sym, ◌∙◌, inl, inr, Text, text, text_eq, nat_eq, Option, none,
  some, List, [], ◌∷◌, Result, ok, err, arith, Bool-cases, Result-cases, ltb,
}
use rust4eska.Models.{Connection, Verb, Resource}
use rust4eska.Backend.{Backend}
use rust4eska.Store.{Store}
use rust4eska.Store.Entities.{list_connections, delete_connection, get_label_ip, put_connection}
use rust4eska.Store.Rbac.{can}
use rust4eska.Vpn.{validate_wg_pubkey}
use rust4eska.Server.{AppState}
use rust4eska.Server.Auth.{Auth, token, secret}
use rust4eska.Server.Join.{allocate_ip, ip_of}
use rust4eska.Server.Connections.{
  ConnectRequest, ConnectResponse, is_evicted, evict_all, evict_listed, evict, next_address,
  address_for, connect_handler, may, labelled, pin, connected,
}
use rust4eska.Server.Reply.{
  Handled, done, failed, Failure, forbidden, bad_request, unavailable, attempt, Handler, guard,
  go_on,
}

module _ (B : Backend) where
  open B use {db_get}

  pub get-delete_connection :
      (id key : Text) (s : Store B)
      → db_get (text "connection_labels") key (delete_connection B id s).1.db
        ≡ db_get (text "connection_labels") key s.db
  unfolding delete_connection
  get-delete_connection id key s =
      let removed = (B.db_remove (text "connections") id s.db).1 in
      let kept = B.get-remove_ne (text "connections") id s.db (text "connection_labels") key refl in
      elim (Result-cases (B.db_remove (text "connections") id s.db).0) [
        | inl (e, p) ↦ rw p kept
        | inr (u, p) ↦ rw p (B.get-flush (text "connection_labels") key removed ∙ kept)
      ]

  -- what evicting old connections leaves alone
  pub record Keeps (label : Text) (state after : AppState B) : Type 0 where
    pub next_ip : after.next_ip ≡ state.next_ip
    pub peers : after.peers ≡ state.peers
    pub pinned :
        db_get (text "connection_labels") label after.store.db
        ≡ db_get (text "connection_labels") label state.store.db

  evict_all-Keeps :
      (req : ConnectRequest) (label : Text) (old : List Connection) (state : AppState B)
      → Keeps label state (evict_all B req old state)
  evict_all-Keeps req label [] state = record { next_ip = refl; peers = refl; pinned = refl }
  evict_all-Keeps req label (c ∷ cs) state = elim (Bool-cases (is_evicted req c)) [
    | inl p ↦ rw p (
        let rest = evict_all-Keeps req label cs (attempt B (delete_connection B c.id) state) in
        record {
          next_ip = rest.next_ip;
          peers = rest.peers;
          pinned = rest.pinned ∙ get-delete_connection c.id label state.store;
        })
    | inr p ↦ rw p (evict_all-Keeps req label cs state)
  ]

  pub evict-Keeps :
      (req : ConnectRequest) (label : Text) (state : AppState B)
      → Keeps label state (evict B req state)
  unfolding evict
  evict-Keeps req label state = of_listed (list_connections B state.store)
    where
      of_listed : (r : Result (List Connection)) → Keeps label state (evict_listed B req r state)
      of_listed (ok old) = evict_all-Keeps req label old state
      of_listed (err e) = record { next_ip = refl; peers = refl; pinned = refl }

  -- what a handler that may take one address from the pool does to it
  pub record Advances (state after : AppState B) : Type 0 where
    pub peers : after.peers ≡ state.peers
    pub next_ip :
        (after.next_ip ≡ state.next_ip)
        ⊎ ((state.next_ip ≤ 254) × (after.next_ip ≡ state.next_ip + 1))

  pub next_address-Advances : (s : AppState B) → Advances s (next_address B s).1
  unfolding next_address allocate_ip
  next_address-Advances s = elim (Bool-cases (ltb 254 s.next_ip)) [
    | inl full ↦ rw (full, allocate_ip) (record { peers = refl; next_ip = inl refl })
    | inr room ↦
        rw (room, allocate_ip) (record { peers = refl; next_ip = inr (ground arith, refl) })
  ]

  pin-Advances :
      (label : Text) (s : AppState B) (r : Handled Text × AppState B)
      → Advances s r.1
      → Advances s (pin B label r).1
  pin-Advances label s (done ip, s') a = record { peers = a.peers; next_ip = a.next_ip }
  pin-Advances label s (failed why, s') a = a

  labelled-Advances :
      (label : Text) (r : Result (Option Text)) (s : AppState B)
      → Advances s (labelled B label r s).1
  labelled-Advances label (ok (some ip)) s = record { peers = refl; next_ip = inl refl }
  labelled-Advances label (ok none) s =
      pin-Advances label s (next_address B s) (next_address-Advances s)
  labelled-Advances label (err e) s =
      pin-Advances label s (next_address B s) (next_address-Advances s)

  pub address_for-Advances :
      (label : Option Text) (s : AppState B) → Advances s (address_for B label s).1
  unfolding address_for
  address_for-Advances none s = next_address-Advances s
  address_for-Advances (some label) s = labelled-Advances label (get_label_ip B label s.store) s

  pub Keeps-Advances :
      {label : Text} {state between after : AppState B}
      → Keeps label state between
      → Advances between after
      → Advances state after
  Keeps-Advances kept a = record {
    peers = a.peers ∙ kept.peers;
    next_ip = elim a.next_ip [
      | inl q ↦ inl (q ∙ kept.next_ip)
      | inr (room, q) ↦ inr (rw (← kept.next_ip) room, q ∙ ap (λ n. n + 1) kept.next_ip)
    ];
  }

  pub Advances-kept :
      {state between after : AppState B}
      → after.next_ip ≡ between.next_ip
      → after.peers ≡ between.peers
      → Advances state between
      → Advances state after
  Advances-kept next peers a = record {
    peers = peers ∙ a.peers;
    next_ip = elim a.next_ip [ inl q ↦ inl (next ∙ q) | inr (room, q) ↦ inr (room, next ∙ q) ];
  }

  pub pinned_address :
      (label ip : Text) (l : Option Text) (s : AppState B)
      → l ≡ some label
      → get_label_ip B label s.store ≡ ok (some ip)
      → address_for B l s ≡ (done ip, s)
  unfolding address_for
  pinned_address label ip l s is_label is_pinned = rw is_label (rw (is_pinned, address_for) refl)

  pub unlabelled_address :
      (l : Option Text) (s : AppState B)
      → l ≡ none
      → (address_for B l s ≡ (failed unavailable, s))
        ⊎ ((s.next_ip ≤ 254)
            × (address_for B l s ≡ (done (ip_of s.next_ip), record s { next_ip = s.next_ip + 1 })))
  unfolding address_for next_address
  unlabelled_address l s h = rw h (elim (Bool-cases (ltb 254 s.next_ip)) [
    | inl full ↦ rw (full, address_for, allocate_ip) (inl refl)
    | inr room ↦ rw (room, address_for, allocate_ip) (inr (ground arith, refl))
  ])

  pub get_label_ip-evict :
      (req : ConnectRequest) (label : Text) (s : AppState B)
      → get_label_ip B label (evict B req s).store ≡ get_label_ip B label s.store
  unfolding get_label_ip
  get_label_ip-evict req label s = rw (evict-Keeps req label s).pinned refl

  module _ (id : Text) (now : ℕ) (endpoint : Text) (req : ConnectRequest) where
    -- the handler behind its checks
    abbrev pub behind : Handler (AppState B) ConnectResponse
    behind s =
        let (r, s') = address_for B req.label (evict B req s) in
        go_on r (connected B id now endpoint req) s'

    pub connect-cases :
        (auth : Auth) (s : AppState B)
        → ((why : Failure) × (connect_handler B id now endpoint auth req s ≡ (failed why, s)))
          ⊎ (connect_handler B id now endpoint auth req s ≡ behind s)
    unfolding connect_handler
    connect-cases secret s = elim (Result-cases (validate_wg_pubkey req.pubkey)) [
      | inl (e, p) ↦ rw (p, connect_handler) (inl (bad_request, refl))
      | inr (u, p) ↦ rw (p, connect_handler) (inr refl)
    ]
    connect-cases (token t) s =
        elim (Bool-cases (can B s.store t.username Verb.create Resource.connections none)) [
          | inr barred ↦ rw (barred, connect_handler, guard, may) (inl (forbidden, refl))
          | inl may_go ↦ elim (Result-cases (validate_wg_pubkey req.pubkey)) [
            | inl (e, p) ↦ rw (may_go, p, connect_handler, guard, may) (inl (bad_request, refl))
            | inr (u, p) ↦ rw (may_go, p, connect_handler, guard, may) (inr refl)
          ]
        ]

    pub connected-ip :
        (ip : Text) (s : AppState B)
        → ((connected B id now endpoint req ip s).1.next_ip ≡ s.next_ip)
          × ((connected B id now endpoint req ip s).1.peers ≡ s.peers)
          × ((response : ConnectResponse)
              → (connected B id now endpoint req ip s).0 ≡ done response
              → response.vpn_ip ≡ ip)
    connected-ip ip s =
        elim (Result-cases
          (put_connection B
            (record {
              id = id;
              pubkey = req.pubkey;
              vpn_ip = ip;
              label = req.label;
              connected_at = now;
              last_seen = now;
            })
            s.store).0) [
              | inl (e, p) ↦ rw p (refl, refl, λ r h. absurd (cc h))
              | inr (u, p) ↦ rw p (refl, refl, λ r h. ap vpn_of (sym h))
            ]
      where
        vpn_of : Handled ConnectResponse → Text
        vpn_of (done r) = r.vpn_ip
        vpn_of (failed why) = ip
