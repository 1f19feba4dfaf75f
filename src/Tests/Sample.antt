-- ===== src/Tests/Sample.antt =====
-- A master with one policy, its binding, a token and one peer.
use rust4eska.Prelude.{Text, text, [], ◌∷◌, none, some, false}
use rust4eska.Models.{Verb, Resource, Rule, Policy, Binding, Token, PeerInfo, JoinRequest}
use rust4eska.Backend.Memory.{Table, policy, binding, token, memory}
use rust4eska.Store.{Store}
use rust4eska.Server.{AppState}

abbrev pub read_prod : Rule
read_prod = record {
  verbs = Verb.get ∷ [];
  resources = Resource.vault ∷ [];
  resource_names = some (text "prod-*" ∷ []);
}

abbrev pub p1 : Policy
p1 = record { id = text "p1"; rules = read_prod ∷ [] }

abbrev pub b1 : Binding
b1 = record { id = text "b1"; subject = text "alice"; policy_id = text "p1" }

abbrev pub t1 : Token
t1 = record { id = text "tok"; username = text "alice"; created_at = 7 }

abbrev pub table : Table
table =
    (text "policies", text "p1", policy p1)
    ∷ (text "bindings", text "b1", binding b1)
    ∷ (text "tokens", text "tok", token t1)
    ∷ []

abbrev pub store : Store memory
store = record {
  db = table;
  cluster_secret = text "s3cret";
  vault_keys = [];
  masters = text "10.42.0.9" ∷ [];
  outbox = [];
}

abbrev pub key_a : Text
key_a = text "AAAAAAAAAAAAAAAAAAAAAAAAAAAAAAAAAAAAAAAAAAA="

abbrev pub key_b : Text
key_b = text "BAAAAAAAAAAAAAAAAAAAAAAAAAAAAAAAAAAAAAAAAAA="

abbrev pub peer_a : PeerInfo memory.Float
peer_a = record {
  pub_key = key_a;
  ip = text "10.42.0.2";
  name = text "friend1";
  role = text "agent";
  public_endpoint = none;
  observed_endpoint = none;
  p2p_direct = none;
  cpu_percent = none;
  ram_used_mb = none;
  ram_total_mb = none;
  vram_used_mb = none;
  vram_total_mb = none;
  last_seen = none;
}

abbrev pub state : AppState memory
state = record {
  master_pub_key = key_b;
  cluster_secret = text "s3cret";
  admin_secret = text "adm1n";
  peers = (key_a, peer_a) ∷ [];
  next_ip = 3;
  update_pending = false;
  agent_update_states = [];
  store = store;
}

-- a new node that calls itself by the name of a subject
abbrev pub join_alice : JoinRequest
join_alice = record {
  pub_key = key_b;
  name = some (text "alice");
  role = some (text "agent");
  public_endpoint = none;
}
