-- ===== src/Ingress/Target.antt =====
-- Where a request goes, crates/r4a-ingress/src/lib.rs.
use rust4eska.Prelude.{
  ◌≡◌, ◌⊎◌, sym, ◌∙◌, inl, inr, Text, text, text_eq, nat_eq, Option-cases, some, ◌++◌, Result-cases,
  Bool-cases, true, arith, ◌==◌, find, find-In, In, values, decimal, list_beq_iff,
}
use rust4eska.Models.{Manifest, IngressConfig, PeerInfo}
use rust4eska.Backend.{Backend}
use rust4eska.Store.{Store}
use rust4eska.Store.Entities.{list_manifests}
use rust4eska.Store.Entries.{HasEntry, list_as-HasEntry}
use rust4eska.Server.Peers.{load_peers}
use rust4eska.Ingress.{http_peer, without_port, serves, is_candidate, upstream_peer}

module _ (B : Backend) where
  -- what a request that is passed on goes by
  pub record Routed (host address : Text) (s : Store B) : Type 0 where
    key : Text
    manifest : Manifest
    config : IngressConfig
    peer : PeerInfo B.Float
    is_stored : HasEntry B B.manifest_json (text "manifests") key s.db manifest
    has_ingress : manifest.ingress ≡ some config
    for_domain : config.domain ≡ host
    is_peer : In peer (values (load_peers B s))
    is_selected :
        (peer.name ≡ manifest.app.node_selector) ⊎ (manifest.app.node_selector ≡ text "all")
    is_address : address ≡ peer.ip ++ (text ":" ++ decimal config.container_port)

  host_of : {a b c d : Text} → http_peer a b ≡ http_peer c d → b ≡ d
  host_of e = cc

  address_of : {a b c d : Text} → http_peer a b ≡ http_peer c d → a ≡ c
  address_of e = cc

  domain_of :
      (host : Text) (m : Manifest) (cfg : IngressConfig)
      → m.ingress ≡ some cfg
      → serves host m ≡ true
      → cfg.domain ≡ host
  domain_of host m cfg r serving = (list_beq_iff cfg.domain host).0 (rw r at serving)

  selected :
      (selector : Text) (peer : PeerInfo B.Float)
      → is_candidate B selector peer ≡ true
      → (peer.name ≡ selector) ⊎ (selector ≡ text "all")
  selected selector peer h = elim (Bool-cases (peer.name == selector)) [
    | inl q ↦ inl ((list_beq_iff peer.name selector).0 q)
    | inr q ↦ inr ((list_beq_iff selector (text "all")).0 (ground (arith, h, q)))
  ]

  -- A request that is passed on goes to the port of the application whose stored manifest names the
  -- host of the request, its port cut off, as the domain, at the address of a stored peer whose name
  -- the manifest selects, or of any peer where it selects all.
  pub upstream_peer-Routed :
      (host_header address host : Text) (s : Store B)
      → upstream_peer B host_header s ≡ http_peer address host
      → (host ≡ without_port host_header) × Routed host address s
  unfolding upstream_peer
  upstream_peer-Routed host_header address host s h = elim (Result-cases (list_manifests B s)) [
    | inl (e, p) ↦ absurd (ground (arith, h, p))
    | inr (manifests, p) ↦
        elim (Option-cases (find (serves (without_port host_header)) manifests)) [
          | inl q ↦ absurd (ground (arith, h, p, q))
          | inr (m, q) ↦ elim (Option-cases m.ingress) [
            | inl r ↦ absurd (ground (arith, h, p, q, r))
            | inr (cfg, r) ↦
                elim (Option-cases
                  (find (is_candidate B m.app.node_selector) (values (load_peers B s)))) [
                    | inl g ↦ absurd (ground (arith, h, p, q, r, g))
                    | inr (peer, g) ↦
                        let goes : http_peer (peer.ip ++ (text ":" ++ decimal cfg.container_port))
                              (without_port host_header)
                            ≡ http_peer address host =
                          sym (ground (arith, p, q, r, g)) ∙ h in
                        let (listed, serving) =
                          find-In (serves (without_port host_header)) manifests m q in
                        let (among, chosen) =
                          find-In (is_candidate B m.app.node_selector) (values (load_peers B s))
                            peer g in
                        let same_host = host_of goes in
                        let (key, entry) =
                          list_as-HasEntry B B.manifest_json (text "manifests") s manifests m
                            (unfold list_manifests in p) listed in
                        (
                          sym same_host,
                          record {
                            key = key;
                            manifest = m;
                            config = cfg;
                            peer = peer;
                            is_stored = entry;
                            has_ingress = r;
                            for_domain =
                                domain_of (without_port host_header) m cfg r serving ∙ same_host;
                            is_peer = among;
                            is_selected = selected m.app.node_selector peer chosen;
                            is_address = sym (address_of goes);
                          },
                        )
                  ]
          ]
        ]
  ]
