-- ===== src/Server/Join/Pool.antt =====
-- The address pool and the table of peers under `join_handler`.
use rust4eska.Prelude.{
  ℕ, ◌+◌, ◌≤◌, ◌<◌, ◌≡◌, ◌≢◌, ◌⊎◌, inl, inr, refl, ap, sym, ◌∙◌, Text, text, text_eq, nat_eq,
  Option, none, some, List, ok, Bool, not, ◌&&◌, ◌||◌, ◌==◌, ltb, In, [], ◌∷◌, filter-In, lookup,
  lookup-In, insert, In-insert, decimal_injective, arith, list_beq_iff, Bool-cases, Result-cases,
  Option-cases,
}
use rust4eska.Models.{PeerInfo, JoinRequest}
use rust4eska.Backend.{Backend}
use rust4eska.Server.{AppState}
use rust4eska.Server.Peers.{Peers}
use rust4eska.Server.Join.{
  accepted, refused, Refusal, bad_request_400, service_unavailable_503, JoinResponse, JoinTask,
  join_handler, validate_join, role_of, agent_ip, allocate_ip, ip_of, drop_namesakes, admit,
  new_peer, node_name, answer,
}

tail_of : Text → Text → Text
tail_of s [] = s
tail_of [] (p ∷ ps) = []
tail_of (x ∷ s) (p ∷ ps) = tail_of s ps

pub ip_of_injective : (m n : ℕ) → ip_of m ≡ ip_of n → m ≡ n
unfolding ip_of tail_of
ip_of_injective m n h = decimal_injective m n (ap (λ (t : Text). tail_of t (text "10.42.0.")) h)

-- The peers of a master: their addresses come from the pool, below the next one, and no two keys
-- share an address.
pub record IsAllocated {F : Type 0} (peers : List (Text × PeerInfo F)) (next : ℕ) : Type 0 where
  pub bounded : next ≤ 255
  pub numbered : (e : Text × PeerInfo F) → In e peers → (n : ℕ) × (n < next) × (e.1.ip ≡ ip_of n)
  pub distinct : (d e : Text × PeerInfo F) → In d peers → In e peers → d.1.ip ≡ e.1.ip → d.0 ≡ e.0

module _ (B : Backend) where
  drop_namesakes-In :
      (name key : Text) (peers : Peers B) (e : Text × PeerInfo B.Float)
      → In e (drop_namesakes B name key peers)
      → In e peers × ((e.1.name ≡ name) → e.0 ≡ key)
  unfolding drop_namesakes
  drop_namesakes-In name key peers e m =
      let (i, p) = filter-In (λ x. not (x.1.name == name) || x.0 == key) _ e m in
      let (j, q) = filter-In (λ x. not (x.1.name == name && not (x.0 == key))) peers e i in
      (j, λ h. ground (arith, list_beq_iff e.1.name name, list_beq_iff e.0 key))

  module _ (name key : Text) (p : PeerInfo B.Float) (peers : Peers B) (next next' n : ℕ)
      (old : IsAllocated peers next) (grows : next ≤ next') (ends : next' ≤ 255) (below : n < next')
      (is_ip : p.ip ≡ ip_of n)
      (alone : (e : Text × PeerInfo B.Float) → In e peers → e.1.ip ≡ p.ip → e.0 ≡ key) where
    abbrev joined : Peers B
    joined = insert key p (drop_namesakes B name key peers)

    joined-cases : (e : Text × PeerInfo B.Float) → In e joined → (e ≡ (key, p)) ⊎ In e peers
    joined-cases e m = elim (In-insert key p (drop_namesakes B name key peers) e m) [
      | inl q ↦ inl q
      | inr i ↦ inr (drop_namesakes-In name key peers e i).0
    ]

    insert-IsAllocated : IsAllocated joined next'
    insert-IsAllocated = record {
      bounded = ends;
      numbered = λ e m. elim (joined-cases e m) [
        | inl q ↦ (n, below, ap (λ (x : Text × PeerInfo B.Float). x.1.ip) q ∙ is_ip)
        | inr i ↦ let (k, lt, at_k) = old.numbered e i in (k, omega arith, at_k)
      ];
      distinct = λ d e m i same. elim (joined-cases d m) [
        | inl q ↦ elim (joined-cases e i) [
          | inl r ↦ ap (λ (x : Text × PeerInfo B.Float). x.0) (q ∙ sym r)
          | inr o ↦
              ap (λ (x : Text × PeerInfo B.Float). x.0) q
              ∙ sym (alone e o (sym same ∙ ap (λ (x : Text × PeerInfo B.Float). x.1.ip) q))
        ]
        | inr o ↦ elim (joined-cases e i) [
          | inl r ↦
              alone d o (same ∙ ap (λ (x : Text × PeerInfo B.Float). x.1.ip) r)
              ∙ sym (ap (λ (x : Text × PeerInfo B.Float). x.0) r)
          | inr o' ↦ old.distinct d e o o' same
        ]
      ];
    }

  module _ (allow : Bool) (now : ℕ) (fresh : Text) (req : JoinRequest) (state : AppState B) where
    abbrev after : AppState B
    after = (join_handler B allow now fresh req state).1

    admitted :
        (ip : Text) (next' n : ℕ)
        → IsAllocated state.peers state.next_ip
        → state.next_ip ≤ next'
        → next' ≤ 255
        → n < next'
        → ip ≡ ip_of n
        → ((e : Text × PeerInfo B.Float) → In e state.peers → e.1.ip ≡ ip → e.0 ≡ req.pub_key)
        → IsAllocated (admit B req (role_of allow req.role) ip next' now fresh state).1.peers next'
    unfolding admit
    admitted ip next' n old grows ends below is_ip alone =
        insert-IsAllocated (node_name req.name (role_of allow req.role) ip) req.pub_key
          (new_peer B req ip (node_name req.name (role_of allow req.role) ip)
            (role_of allow req.role) now)
          state.peers state.next_ip next' n old grows ends below is_ip alone

    answer-IsAllocated :
        (o : Option (PeerInfo B.Float))
        → lookup req.pub_key state.peers ≡ o
        → IsAllocated state.peers state.next_ip
        → let s =
            (answer B req (role_of allow req.role) now fresh state (agent_ip o state.next_ip)).1 in
          IsAllocated s.peers s.next_ip
    unfolding agent_ip admit
    answer-IsAllocated (some existing) found old =
        let i = lookup-In req.pub_key existing state.peers found in
        let (n, lt, is_ip) = old.numbered (req.pub_key, existing) i in
        admitted existing.ip state.next_ip n old (omega arith) old.bounded lt is_ip
          (λ e m same. old.distinct e (req.pub_key, existing) m i same)
    answer-IsAllocated none found old = elim (Bool-cases (ltb 254 state.next_ip)) [
      | inl full ↦ rw (full, allocate_ip) old
      | inr room ↦
          rw (room, allocate_ip)
            (admitted (ip_of state.next_ip) (state.next_ip + 1) state.next_ip old (omega arith)
              (ground arith) (omega arith) refl (λ e m same. absurd (fresh_ip e m same)))
    ]
      where
        fresh_ip :
            (e : Text × PeerInfo B.Float) → In e state.peers → e.1.ip ≡ ip_of state.next_ip → ⊥
        fresh_ip e m same =
            let (n, lt, is_ip) = old.numbered e m in
            let q = ip_of_injective n state.next_ip (sym is_ip ∙ same) in omega arith

    -- A join, whatever its outcome, keeps the pool in order: every peer has an address below the next
    -- one to give out, which never passes 255, and no two keys share an address.
    pub join_handler-IsAllocated :
        IsAllocated state.peers state.next_ip → IsAllocated after.peers after.next_ip
    unfolding join_handler
    join_handler-IsAllocated old = elim (Result-cases (validate_join req)) [
      | inl (e, p) ↦ rw (p, after, join_handler) old
      | inr (u, p) ↦
          rw (p, after, join_handler) (answer-IsAllocated (lookup req.pub_key state.peers) refl old)
    ]

    -- A refused join leaves the master as it was, and the answer is true: 400 if a field is not valid,
    -- 503 if the key is new and the pool is used up.
    pub join_handler_refused :
        (why : Refusal)
        → (join_handler B allow now fresh req state).0 ≡ refused why
        → (after ≡ state)
          × (((why ≡ bad_request_400) × (validate_join req ≢ ok tt))
              ⊎ ((why ≡ service_unavailable_503)
                  × (lookup req.pub_key state.peers ≡ none)
                  × (254 < state.next_ip)))
    unfolding join_handler
    join_handler_refused why h = elim (Result-cases (validate_join req)) [
      | inl (e, p) ↦ (rw (p, after, join_handler) refl, inl (ground arith, ground arith))
      | inr (u, p) ↦ elim (Option-cases (lookup req.pub_key state.peers)) [
        | inl q ↦ elim (Bool-cases (ltb 254 state.next_ip)) [
          | inl full ↦ (ground arith, inr (ground arith, q, ground arith))
          | inr room ↦ absurd (ground arith)
        ]
        | inr (existing, q) ↦ absurd (ground arith)
      ]
    ]

    -- An accepted join took an address and went on to `admit`.
    pub join_admits :
        (response : JoinResponse B) (task : JoinTask B)
        → (join_handler B allow now fresh req state).0 ≡ accepted (response, task)
        → (ip : Text) × (next : ℕ) × (agent_ip (lookup req.pub_key state.peers) state.next_ip
            ≡ some (ip, next))
          × (admit B req (role_of allow req.role) ip next now fresh state ≡ (response, after, task))
    unfolding join_handler
    join_admits response task h = elim (Result-cases (validate_join req)) [
      | inl (e, p) ↦ absurd (ground arith)
      | inr (u, p) ↦ elim (Option-cases (agent_ip (lookup req.pub_key state.peers) state.next_ip)) [
        | inl q ↦ absurd (ground arith)
        | inr ((ip, next), q) ↦ (ip, next, q, ground arith)
      ]
    ]

    admit-peers :
        (ip : Text) (next : ℕ) (e : Text × PeerInfo B.Float)
        → let (response, s, task) = admit B req (role_of allow req.role) ip next now fresh state in
          In e s.peers → e.1.name ≡ task.token.username → e.0 ≡ req.pub_key
    unfolding admit
    admit-peers ip next e m named =
        let name = node_name req.name (role_of allow req.role) ip in
        elim (In-insert req.pub_key (new_peer B req ip name (role_of allow req.role) now)
          (drop_namesakes B name req.pub_key state.peers) e m) [
            | inl q ↦ ap (λ (x : Text × PeerInfo B.Float). x.0) q
            | inr i ↦ (drop_namesakes-In name req.pub_key state.peers e i).1 named
          ]

    admit-ip :
        (ip : Text) (next : ℕ)
        → let (response, s, task) = admit B req (role_of allow req.role) ip next now fresh state in
          (response.agent_vpn_ip ≡ ip) × (s.next_ip ≡ next)
    unfolding admit
    admit-ip ip next = (refl, refl)

    -- After an accepted join no other key has a peer with the name of the joining node.
    pub join_handler-name :
        (response : JoinResponse B) (task : JoinTask B) (e : Text × PeerInfo B.Float)
        → (join_handler B allow now fresh req state).0 ≡ accepted (response, task)
        → In e after.peers
        → e.1.name ≡ task.token.username
        → e.0 ≡ req.pub_key
    join_handler-name response task e h m named =
        let (ip, next, q, p) = join_admits response task h in
        (rw p at (admit-peers ip next e)) m named

    -- An accepted join answers a known key with the address that it had, and takes none from the
    -- pool; it answers a new key with the next address of the pool, at most 10.42.0.254, and takes it.
    pub join_handler-address :
        (response : JoinResponse B) (task : JoinTask B)
        → (join_handler B allow now fresh req state).0 ≡ accepted (response, task)
        → ((existing : PeerInfo B.Float) × (lookup req.pub_key state.peers ≡ some existing)
            × (response.agent_vpn_ip ≡ existing.ip)
            × (after.next_ip ≡ state.next_ip))
          ⊎ ((lookup req.pub_key state.peers ≡ none)
              × (state.next_ip ≤ 254)
              × (response.agent_vpn_ip ≡ ip_of state.next_ip)
              × (after.next_ip ≡ state.next_ip + 1))
    unfolding agent_ip
    join_handler-address response task h =
        let (ip, next, q, p) = join_admits response task h in
        let (given, kept) = rw p at (admit-ip ip next) in
        elim (Option-cases (lookup req.pub_key state.peers)) [
          | inl e ↦ inr (e, ground arith, ground arith, ground arith)
          | inr (existing, e) ↦ inl (existing, e, ground arith, ground arith)
        ]
