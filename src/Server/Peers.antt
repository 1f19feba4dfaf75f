-- ===== src/Server/Peers.antt =====
-- `load_peers` and `save_peers` of binaries/r4a-server/src/main.rs. The update of /etc/hosts, whose
-- failure is only logged, is outside.
use rust4eska.Prelude.{
  Text, text, text_eq, nat_eq, Option, some, List, [], map, Result, ok, err, filter, values, ◌==◌,
}
use rust4eska.Models.{PeerInfo}
use rust4eska.Backend.{Backend}
use rust4eska.Store.{Store, get, put, get_as, set_masters}

module _ (B : Backend) where
  open B use {Float, peers_json}

  abbrev pub Peers : Type 0
  Peers = List (Text × PeerInfo Float)

  abbrev or_empty : Result (Option Peers) → Peers
  or_empty (ok (some peers)) = peers
  or_empty _ = []

  unfoldable pub load_peers : Store B → Peers
  unfolding get
  load_peers store = or_empty (get_as B peers_json (text "core") (text "peers") store)

  abbrev pub master_ips : Peers → List Text
  master_ips peers = map (λ p. p.ip) (filter (λ p. p.role == text "master") (values peers))

  -- Peers that cannot be serialized change nothing; a failed write is logged, and the masters are
  -- set all the same.
  abbrev save_json : Peers → Result B.Blob → Store B → Store B
  save_json peers (err e) s = s
  save_json peers (ok json) s =
      set_masters B (master_ips peers) (put B (text "core") (text "peers") json s).1

  unfoldable pub save_peers : Peers → Store B → Store B
  unfolding put set_masters
  save_peers peers s = save_json peers (peers_json.to_vec peers) s
