-- ===== src/Ingress.antt =====
-- The proxy for the applications, crates/r4a-ingress/src/lib.rs: where `upstream_peer` sends a request
-- with a header `Host`, which is empty where it is missing or is no text.
pub mod Target
use rust4eska.Prelude.{
  ℕ, Text, text, text_eq, nat_eq, Option, none, some, List, [], ◌∷◌, ◌++◌, Result, ok, err, Bool,
  false, ◌||◌, ◌==◌, find, values, decimal, nat_beq, if◌then◌else◌,
}
use rust4eska.Models.{Manifest, IngressConfig, PeerInfo}
use rust4eska.Backend.{Backend}
use rust4eska.Store.{Store}
use rust4eska.Store.Entities.{list_manifests}
use rust4eska.Server.Peers.{load_peers}

-- the address with its server name, or the status of the error
pub data Upstream : Type 0 where
  http_peer : Text → Text → Upstream
  service_unavailable_503 not_found_404 : Upstream

-- `host_header.split(':').next()`
unfoldable pub without_port : Text → Text
without_port [] = []
without_port (c ∷ s) = let rest = without_port s in if nat_beq c b':' then [] else c ∷ rest

abbrev is_for : Text → Option IngressConfig → Bool
is_for host none = false
is_for host (some ing) = ing.domain == host

-- the test of a manifest
abbrev pub serves : Text → Manifest → Bool
serves host m = is_for host m.ingress

module _ (B : Backend) where
  abbrev pub is_candidate : Text → PeerInfo B.Float → Bool
  is_candidate node_selector p = p.name == node_selector || node_selector == text "all"

  abbrev pub target : Text → IngressConfig → Option (PeerInfo B.Float) → Upstream
  target host cfg none = service_unavailable_503
  target host cfg (some peer) = http_peer (peer.ip ++ (text ":" ++ decimal cfg.container_port)) host

  -- `manifest.ingress.as_ref().unwrap()` is there, as the manifest serves the host
  abbrev pub for_app : Text → Store B → Manifest → Option IngressConfig → Upstream
  for_app host s m none = not_found_404
  for_app host s m (some cfg) =
      target host cfg (find (is_candidate m.app.node_selector) (values (load_peers B s)))

  abbrev pub for_manifest : Text → Store B → Option Manifest → Upstream
  for_manifest host s none = not_found_404
  for_manifest host s (some m) = for_app host s m m.ingress

  abbrev pub for_host : Text → Store B → Result (List Manifest) → Upstream
  for_host host s (err e) = service_unavailable_503
  for_host host s (ok manifests) = for_manifest host s (find (serves host) manifests)

  unfoldable pub upstream_peer : Text → Store B → Upstream
  upstream_peer host_header s = for_host (without_port host_header) s (list_manifests B s)
