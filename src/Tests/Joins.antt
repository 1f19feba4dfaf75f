-- ===== src/Tests/Joins.antt =====
-- Agents that join.
use rust4eska.Prelude.{
  ◌≡◌, ◌⊎◌, ◌≢◌, ◌<◌, ◌≤◌, refl, Text, text, text_eq, nat_eq, none, some, true, false, inl, inr,
  In-cons, here, there, ok, [], ◌∷◌, lookup, arith, ap, sym, ◌∙◌,
}
unfoldable use rust4eska.Prelude.{decimal}
use rust4eska.Models.{Verb, Resource, Rule, PeerInfo}
use rust4eska.Backend.Memory.{memory, entries, without}
use rust4eska.Backend.Memory
use rust4eska.Store.Rbac.Spec.{Granted}
use rust4eska.Server.{AppState}
use rust4eska.Server.Join.{
  Reply, accepted, refused, service_unavailable_503, bad_request_400, JoinResponse, JoinTask,
  join_handler, validate_join, ip_of,
}
use rust4eska.Server.Join.Pool.{
  IsAllocated, join_handler-IsAllocated, join_handler_refused, join_handler-name,
  join_handler-address,
}
use rust4eska.Server.Join.Rights.{join_least_privilege, join_inherits_grants}
use rust4eska.Tests.Sample.{state, join_alice, peer_a, key_a, key_b}
use rust4eska.Tests.Granting.{granted}

abbrev fresh : Text
fresh = text "f00d"

pub state-IsAllocated : IsAllocated state.peers 3
unfolding ip_of decimal
state-IsAllocated = record {
  bounded = omega arith;
  numbered = λ e m. elim (In-cons m) [
    | inl q ↦ (2, omega arith, ap (λ (x : Text × PeerInfo memory.Float). x.1.ip) q)
    | inr n ↦ elim n [ ]
  ];
  distinct = λ d e m i h. elim (In-cons m) [
    | inl q ↦ elim (In-cons i) [
      | inl r ↦ ap (λ (x : Text × PeerInfo memory.Float). x.0) (q ∙ sym r)
      | inr n ↦ elim n [ ]
    ]
    | inr n ↦ elim n [ ]
  ];
}

abbrev joined : Reply (JoinResponse memory × JoinTask memory) × AppState memory
joined = join_handler memory false 100 fresh join_alice state

join_handler-IsAllocated_example : IsAllocated joined.1.peers joined.1.next_ip
join_handler-IsAllocated_example =
    join_handler-IsAllocated memory false 100 fresh join_alice state state-IsAllocated

abbrev pub peer_b : PeerInfo memory.Float
peer_b = record peer_a {
  pub_key = key_b;
  ip = text "10.42.0.3";
  name = text "alice";
  last_seen = some 100;
}

abbrev pub response : JoinResponse memory
response = record {
  master_pub_key = key_b;
  agent_vpn_ip = text "10.42.0.3";
  peers = (key_a, peer_a) ∷ (key_b, peer_b) ∷ [];
  agent_token = fresh;
}

abbrev get_rule : Rule
get_rule = record {
  verbs = Verb.get ∷ [];
  resources = Resource.vault ∷ Resource.manifests ∷ [];
  resource_names = none;
}

abbrev pub task : JoinTask memory
task = record {
  policy = record { id = text "policy-f00d"; rules = get_rule ∷ [] };
  binding = record {
    id = text "binding-f00d";
    subject = text "alice";
    policy_id = text "policy-f00d";
  };
  token = record { id = fresh; username = text "alice"; created_at = 100 };
  peers = response.peers;
}

joined_alice : joined.0 ≡ accepted (response, task)
unfolding join_handler ip_of decimal entries without Memory.lookup
joined_alice = refl

join_handler-name_example : key_b ≡ key_b
join_handler-name_example =
    join_handler-name memory false 100 fresh join_alice state response task (key_b, peer_b)
      joined_alice (unfold join_handler ip_of decimal entries without Memory.lookup in there here)
      refl

join_handler-address_example :
    ((existing : PeerInfo memory.Float) × (lookup key_b state.peers ≡ some existing)
      × (text "10.42.0.3" ≡ existing.ip)
      × (joined.1.next_ip ≡ 3))
    ⊎ ((lookup key_b state.peers ≡ none)
        × (3 ≤ 254)
        × (text "10.42.0.3" ≡ ip_of 3)
        × (joined.1.next_ip ≡ 4))
join_handler-address_example =
    join_handler-address memory false 100 fresh join_alice state response task joined_alice

abbrev full : AppState memory
full = record state { next_ip = 255 }

full_refuses :
    (join_handler memory false 100 fresh join_alice full).0 ≡ refused service_unavailable_503
unfolding join_handler
full_refuses = refl

join_handler_refused_example :
    ((join_handler memory false 100 fresh join_alice full).1 ≡ full)
    × (((service_unavailable_503 ≡ bad_request_400) × (validate_join join_alice ≢ ok tt))
        ⊎ ((service_unavailable_503 ≡ service_unavailable_503)
            × (lookup key_b full.peers ≡ none)
            × (254 < 255)))
join_handler_refused_example =
    join_handler_refused memory false 100 fresh join_alice full service_unavailable_503 full_refuses

join_least_privilege_example :
    ((Verb.get ≡ Verb.get)
      × ((Resource.vault ≡ Resource.vault) ⊎ (Resource.vault ≡ Resource.manifests)))
    ⊎ ((false ≡ true) × (some (text "agent") ≡ some (text "master")))
join_least_privilege_example =
    join_least_privilege memory false 100 fresh join_alice state response task joined_alice Verb.get
      Resource.vault none get_rule here
      (record { verb_listed = inl here; resource_listed = inl here; names = tt })

join_inherits_grants_example :
    (text "alice" ≡ text "alice")
    × (fresh ≡ fresh)
    × Granted memory joined.1.store.db
        (text "alice")
        Verb.get
        Resource.vault
        (some (text "prod-db"))
join_inherits_grants_example =
    join_inherits_grants memory false 100 fresh join_alice state response task joined_alice
      (text "alice") Verb.get Resource.vault (some (text "prod-db")) refl granted
