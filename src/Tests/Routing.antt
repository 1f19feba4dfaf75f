-- ===== src/Tests/Routing.antt =====
-- A request for an application that runs on one node.
unfoldable use rust4eska.Prelude.{decimal}
use rust4eska.Prelude.{◌≡◌, refl, text, none, some, [], ◌∷◌}
use rust4eska.Models.{Manifest}
use rust4eska.Backend.Memory.{memory, lookup, entries, manifest, peers}
use rust4eska.Store.{Store}
use rust4eska.Store.Entities.{list_manifests}
use rust4eska.Server.Peers.{load_peers}
use rust4eska.Ingress.{http_peer, not_found_404, without_port, upstream_peer}
use rust4eska.Ingress.Target.{Routed, upstream_peer-Routed}
use rust4eska.Tests.Sample.{store, key_a, peer_a}

abbrev web : Manifest
web = record {
  app = record { name = text "web"; node_selector = text "friend1" };
  container = none;
  systemd = none;
  ingress = some (record { domain = text "app.cluster.local"; container_port = 8080 });
  env = [];
}

abbrev serving : Store memory
serving = record store {
  db =
      (text "manifests", text "web", manifest web)
      ∷ (text "core", text "peers", peers ((key_a, peer_a) ∷ []))
      ∷ [];
}

goes :
    upstream_peer memory (text "app.cluster.local:3500") serving
    ≡ http_peer (text "10.42.0.2:8080") (text "app.cluster.local")
unfolding upstream_peer without_port list_manifests load_peers lookup entries decimal
goes = refl

knows_no_other : upstream_peer memory (text "other") serving ≡ not_found_404
unfolding upstream_peer without_port list_manifests load_peers lookup entries
knows_no_other = refl

upstream_peer-Routed_example :
    (text "app.cluster.local" ≡ without_port (text "app.cluster.local:3500"))
    × Routed memory (text "app.cluster.local") (text "10.42.0.2:8080") serving
upstream_peer-Routed_example =
    upstream_peer-Routed memory (text "app.cluster.local:3500") (text "10.42.0.2:8080")
      (text "app.cluster.local") serving goes
