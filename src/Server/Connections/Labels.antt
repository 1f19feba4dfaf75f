-- ===== src/Server/Connections/Labels.antt =====
-- The addresses that `connect_handler` gives out.
use rust4eska.Prelude.{
  ℕ, ◌+◌, ◌≤◌, ◌≡◌, refl, ap, sym, ◌∙◌, inl, inr, Text, text_eq, nat_eq, none, some, [], ok, arith,
}
use rust4eska.Backend.{Backend}
use rust4eska.Store.Entities.{get_label_ip}
use rust4eska.Server.{AppState}
use rust4eska.Server.Auth.{Auth}
use rust4eska.Server.Join.{ip_of}
use rust4eska.Server.Connections.{
  ConnectRequest, ConnectResponse, evict, address_for, connect_handler, connected,
}
use rust4eska.Server.Reply.{done, Handled-cases}
use rust4eska.Server.Connections.Steps.{
  Advances, unlabelled_address, evict-Keeps, address_for-Advances, Keeps-Advances, Advances-kept,
  pinned_address, get_label_ip-evict, behind, connect-cases, connected-ip,
}

module _ (B : Backend) where
  module _ (id : Text) (now : ℕ) (endpoint : Text) (req : ConnectRequest) where
    behind-Advances : (s : AppState B) → Advances B s (behind B id now endpoint req s).1
    behind-Advances s =
        let kept = evict-Keeps B req [] s in
        let found = address_for-Advances B req.label (evict B req s) in
        elim (Handled-cases (address_for B req.label (evict B req s)).0) [
          | inl (why, p) ↦ rw p (Keeps-Advances B kept found)
          | inr (ip, p) ↦
              let (next, peers, responds) =
                connected-ip B id now endpoint req ip (address_for B req.label (evict B req s)).1 in
              rw p (Advances-kept B next peers (Keeps-Advances B kept found))
        ]

    -- a client that connects takes one address from the pool at most
    pub connect_handler-Advances :
        (auth : Auth) (s : AppState B)
        → Advances B s (connect_handler B id now endpoint auth req s).1
    connect_handler-Advances auth s = elim (connect-cases B id now endpoint req auth s) [
      | inl (why, p) ↦ rw p (record { peers = refl; next_ip = inl refl })
      | inr p ↦ rw p (behind-Advances s)
    ]

    -- A client that connects with a label to which an address is pinned gets that address, and takes
    -- none from the pool.
    pub connect_handler-pinned :
        (auth : Auth) (state : AppState B) (label ip : Text) (response : ConnectResponse)
        → req.label ≡ some label
        → get_label_ip B label state.store ≡ ok (some ip)
        → (connect_handler B id now endpoint auth req state).0 ≡ done response
        → (response.vpn_ip ≡ ip)
          × ((connect_handler B id now endpoint auth req state).1.next_ip ≡ state.next_ip)
    connect_handler-pinned auth state label ip response is_label is_pinned h =
        elim (connect-cases B id now endpoint req auth state) [
          | inl (why, p) ↦ absurd (ground arith)
          | inr p ↦
              let found =
                pinned_address B label ip req.label (evict B req state) is_label
                  (get_label_ip-evict B req label state ∙ is_pinned) in
              let (next, peers, responds) =
                connected-ip B id now endpoint req ip (evict B req state) in
              let runs : connect_handler B id now endpoint auth req state
                  ≡ connected B id now endpoint req ip (evict B req state) =
                p ∙ rw found refl in
              (
                responds response (ap (λ r. r.0) (sym runs) ∙ h),
                ap (λ r. r.1.next_ip) runs ∙ next ∙ (evict-Keeps B req label state).next_ip,
              )
        ]

    -- A client that connects without a label is given the next address of the pool, at most
    -- 10.42.0.254, and takes it.
    pub connect_handler-fresh :
        (auth : Auth) (state : AppState B) (response : ConnectResponse)
        → req.label ≡ none
        → (connect_handler B id now endpoint auth req state).0 ≡ done response
        → (response.vpn_ip ≡ ip_of state.next_ip)
          × (state.next_ip ≤ 254)
          × ((connect_handler B id now endpoint auth req state).1.next_ip ≡ state.next_ip + 1)
    connect_handler-fresh auth state response no_label h =
        elim (connect-cases B id now endpoint req auth state) [
          | inl (why, p) ↦ absurd (ground arith)
          | inr p ↦
              let s : AppState B = evict B req state in
              let same : s.next_ip ≡ state.next_ip = (evict-Keeps B req [] state).next_ip in
              elim (unlabelled_address B req.label s no_label) [
                | inl full ↦ absurd (ground arith)
                | inr (room, found) ↦
                    let taken : AppState B = record s { next_ip = s.next_ip + 1 } in
                    let (next, peers, responds) =
                      connected-ip B id now endpoint req (ip_of s.next_ip) taken in
                    let runs : connect_handler B id now endpoint auth req state
                        ≡ connected B id now endpoint req (ip_of s.next_ip) taken =
                      p ∙ rw found refl in
                    (
                      responds response (ap (λ r. r.0) (sym runs) ∙ h) ∙ ap ip_of same,
                      rw (← same) room,
                      ap (λ r. r.1.next_ip) runs ∙ next ∙ ap (λ n. n + 1) same,
                    )
              ]
        ]
