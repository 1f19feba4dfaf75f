-- ===== src/Tests/Clients.antt =====
-- VPN clients that connect.
use rust4eska.Prelude.{
  ◌≡◌, ◌⊎◌, ◌==◌, ◌&&◌, if◌then◌else◌, true, false, ◌≢◌, ◌≤◌, refl, Text, text, text_eq, nat_eq,
  none, some, ok, List, [], ◌∷◌, lookup,
}
unfoldable use rust4eska.Prelude.{decimal}
use rust4eska.Backend.Memory.{memory, entries, without}
use rust4eska.Backend.Memory
use rust4eska.Vpn.{validate_wg_pubkey}
use rust4eska.Server.{AppState}
use rust4eska.Server.Auth.{secret}
use rust4eska.Server.Join.{Reply, accepted, JoinResponse, JoinTask, join_handler, ip_of}
use rust4eska.Server.Reply.{Handled, done, failed, forbidden, not_found}
use rust4eska.Server.Connections.{
  ConnectRequest, ConnectResponse, connect_handler, disconnect_handler,
}
use rust4eska.Server.Connections.Labels.{connect_handler-pinned, connect_handler-fresh}
use rust4eska.Store.Entities
use rust4eska.Models.{Connection, PeerInfo}
use rust4eska.Server.Connections.Once.{client, agent, at_once, given_once}
use rust4eska.Server.Connections.Leaving.{disconnect_handler-gone, disconnect_handler_refused}
use rust4eska.Tests.Sample.{state, join_alice, peer_a, key_a, key_b}
use rust4eska.Tests.Joins.{response, task, peer_b}

abbrev laptop : ConnectRequest
laptop = record { pubkey = key_b; label = none }

abbrev labelled : ConnectRequest
labelled = record { pubkey = key_b; label = some (text "laptop") }

abbrev endpoint : Text
endpoint = text "203.0.113.7:51820"

abbrev answer_at : Text → ConnectResponse
answer_at ip = record {
  id = text "c1";
  vpn_ip = ip;
  master_pubkey = key_b;
  master_endpoint = endpoint;
  heartbeat_interval_secs = 30;
}

abbrev first : Handled ConnectResponse × AppState memory
first = connect_handler memory (text "c1") 100 endpoint secret labelled state

runs_first : first.0 ≡ done (answer_at (text "10.42.0.3"))
unfolding connect_handler ip_of decimal entries without Memory.lookup validate_wg_pubkey
    Entities.put_connection
runs_first = refl

runs_again :
    (connect_handler memory (text "c1") 100 endpoint secret labelled first.1).0
    ≡ done (answer_at (text "10.42.0.3"))
unfolding connect_handler ip_of decimal entries without Memory.lookup validate_wg_pubkey
    Entities.put_connection
runs_again = refl

is_pinned :
    Entities.get_label_ip memory (text "laptop") first.1.store ≡ ok (some (text "10.42.0.3"))
unfolding connect_handler Entities.get_label_ip ip_of decimal entries without Memory.lookup
    validate_wg_pubkey Entities.put_connection
is_pinned = refl

runs_unlabelled :
    (connect_handler memory (text "c1") 100 endpoint secret laptop state).0
    ≡ done (answer_at (text "10.42.0.3"))
unfolding connect_handler ip_of decimal entries without Memory.lookup validate_wg_pubkey
    Entities.put_connection
runs_unlabelled = refl

connect_handler-pinned_example :
    (text "10.42.0.3" ≡ text "10.42.0.3")
    × ((connect_handler memory (text "c1") 100 endpoint secret labelled first.1).1.next_ip
        ≡ first.1.next_ip)
connect_handler-pinned_example =
    connect_handler-pinned memory (text "c1") 100 endpoint labelled secret first.1 (text "laptop")
      (text "10.42.0.3") (answer_at (text "10.42.0.3")) refl is_pinned runs_again

connect_handler-fresh_example :
    (text "10.42.0.3" ≡ ip_of 3)
    × (3 ≤ 254)
    × ((connect_handler memory (text "c1") 100 endpoint secret laptop state).1.next_ip ≡ 4)
connect_handler-fresh_example =
    connect_handler-fresh memory (text "c1") 100 endpoint laptop secret state
      (answer_at (text "10.42.0.3")) refl runs_unlabelled

-- the laptop is connected, and an agent joins
abbrev with_laptop : AppState memory
with_laptop = (connect_handler memory (text "c1") 100 endpoint secret laptop state).1

abbrev then_agent : Reply (JoinResponse memory × JoinTask memory) × AppState memory
then_agent = join_handler memory false 100 (text "f00d") join_alice with_laptop

abbrev peers_then : List (Text × PeerInfo memory.Float)
peers_then = (key_a, peer_a) ∷ (key_b, record peer_b { ip = text "10.42.0.4" }) ∷ []

abbrev answer_alice : JoinResponse memory
answer_alice = record response { agent_vpn_ip = text "10.42.0.4"; peers = peers_then }

abbrev task_alice : JoinTask memory
task_alice = record task { peers = peers_then }

joins_alice : then_agent.0 ≡ accepted (answer_alice, task_alice)
unfolding connect_handler join_handler ip_of decimal entries without Memory.lookup
    validate_wg_pubkey Entities.put_connection
joins_alice = refl

is_new : lookup key_b with_laptop.peers ≡ none
unfolding connect_handler ip_of decimal entries without Memory.lookup validate_wg_pubkey
    Entities.put_connection
is_new = refl

given_once_example : text "10.42.0.3" ≢ text "10.42.0.4"
given_once_example =
    given_once memory state with_laptop with_laptop then_agent.1 (text "10.42.0.3")
      (text "10.42.0.4")
      (client (text "c1") 100 endpoint secret laptop (answer_at (text "10.42.0.3")) refl
        runs_unlabelled)
      at_once (agent false 100 (text "f00d") join_alice answer_alice task_alice is_new joins_alice)

abbrev second : Handled (Unit {0}) × AppState memory
second = disconnect_handler memory secret (text "c1") first.1

runs_disconnect : second.0 ≡ done tt
unfolding connect_handler disconnect_handler ip_of decimal entries without Memory.lookup
    validate_wg_pubkey Entities.put_connection
runs_disconnect = refl

disconnect_handler-gone_example :
    (true ≡ true)
    × ((c : Connection) × (Entities.get_connection memory (text "c1") first.1.store ≡ ok (some c)))
    × (memory.db_get (text "connections") (text "c1") second.1.store.db ≡ (
        if text "connections" == text "connections" && text "c1" == text "c1"
        then ok none
        else memory.db_get (text "connections") (text "c1") first.1.store.db))
disconnect_handler-gone_example =
    disconnect_handler-gone memory secret (text "c1") first.1 (text "connections") (text "c1")
      runs_disconnect

runs_unknown : (disconnect_handler memory secret (text "c9") state).0 ≡ failed not_found
unfolding disconnect_handler entries without Memory.lookup
runs_unknown = refl

keeps_when_refused :
    ((disconnect_handler memory secret (text "c9") state).1 ≡ state)
    × ((not_found ≡ forbidden)
        ⊎ ((not_found ≡ not_found)
            × (Entities.get_connection memory (text "c9") state.store ≡ ok none)))
keeps_when_refused =
    disconnect_handler_refused memory secret (text "c9") state not_found runs_unknown (λ e. cc e)
