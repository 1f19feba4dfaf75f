-- ===== src/Server/Connections.antt =====
-- The handlers of binaries/r4a-server/src/main.rs for VPN clients that are no agents. From outside
-- come the time, the random id of a connection, and the public endpoint of the master; the calls of
-- `wg`, whose failure is only logged, are outside.
pub mod Steps
pub mod Labels
pub mod Leaving
pub mod Once
use rust4eska.Prelude.{
  ℕ, ◌+◌, Text, text, text_eq, nat_eq, Option, none, some, List, [], ◌∷◌, Result, ok, err, Bool,
  true, false, ◌&&◌, ◌||◌, ◌==◌, if◌then◌else◌,
}
use rust4eska.Models.{Verb, Resource, Connection, Token}
use rust4eska.Backend.{Backend}
use rust4eska.Store.{Store}
use rust4eska.Store.Entities.{
  list_connections, get_connection, put_connection, delete_connection, update_connection_heartbeat,
  get_label_ip, set_label_ip,
}
use rust4eska.Store.Rbac.{can}
use rust4eska.Vpn.{validate_wg_pubkey}
use rust4eska.Server.{AppState}
use rust4eska.Server.Auth.{Auth, token, secret}
use rust4eska.Server.Join.{allocate_ip}
use rust4eska.Server.Update.{opt_eq}
use rust4eska.Server.Reply.{
  Handler, Handled, done, failed, forbidden, not_found, bad_request, internal_error, unavailable,
  finish, guard, expect, reading, storing, attempt, or_internal, ◌>>=◌, ◌>>◌,
}

pub record ConnectRequest : Type 0 where
  pub pubkey : Text
  pub label : Option Text

pub record ConnectResponse : Type 0 where
  pub id : Text
  pub vpn_ip : Text
  pub master_pubkey : Text
  pub master_endpoint : Text
  pub heartbeat_interval_secs : ℕ

abbrev is_some : Option Text → Bool
is_some none = false
is_some (some a) = true

-- whether a new connection replaces an old one: the same key, or the same label
unfoldable pub is_evicted : ConnectRequest → Connection → Bool
is_evicted req old = old.pubkey == req.pubkey || (is_some req.label && opt_eq old.label req.label)

-- the validation of the key
abbrev pub checked : Result (Unit {0}) → Handled (Unit {0})
checked (ok u) = done tt
checked (err e) = failed bad_request

module _ (B : Backend) where
  -- the cluster secret gives access by itself, a token by what its subject may do
  abbrev pub may : Verb → Auth → AppState B → Bool
  may verb secret state = true
  may verb (token t) state = can B state.store t.username verb Resource.connections none

  unfoldable pub connections_list_handler : Token → Handler (AppState B) (List Connection)
  unfolding list_connections
  connections_list_handler t = do
    guard forbidden (λ state. can B state.store t.username Verb.list Resource.connections none)
    reading B (list_connections B)

  abbrev pub evict_all : ConnectRequest → List Connection → AppState B → AppState B
  evict_all req [] state = state
  evict_all req (old ∷ rest) state =
      evict_all req rest
        (if is_evicted req old then attempt B (delete_connection B old.id) state else state)

  abbrev pub evict_listed : ConnectRequest → Result (List Connection) → AppState B → AppState B
  evict_listed req (ok existing) state = evict_all req existing state
  evict_listed req (err e) state = state

  -- the loop over the existing connections; what cannot be listed or deleted is passed over
  unfoldable pub evict : ConnectRequest → AppState B → AppState B
  unfolding is_evicted list_connections delete_connection
  evict req state = evict_listed req (list_connections B state.store) state

  abbrev pub take_ip : Option (Text × ℕ) → Handler (AppState B) Text
  take_ip none state = (failed unavailable, state)
  take_ip (some (ip, next)) state = (done ip, record state { next_ip = next })

  -- an address from the pool that the joining agents use too
  unfoldable pub next_address : Handler (AppState B) Text
  unfolding allocate_ip
  next_address state = take_ip (allocate_ip state.next_ip) state

  -- a new address that is pinned to the label; a failure to pin it is logged
  abbrev pub pin : Text → Handled Text × AppState B → Handled Text × AppState B
  pin label (failed why, state) = (failed why, state)
  pin label (done ip, state) = (done ip, attempt B (set_label_ip B label ip) state)

  abbrev pub labelled : Text → Result (Option Text) → Handler (AppState B) Text
  labelled label (ok (some ip)) state = (done ip, state)
  labelled label (ok none) state = pin label (next_address state)
  labelled label (err e) state = pin label (next_address state)

  -- the address that is pinned to the label, else a new one
  unfoldable pub address_for : Option Text → Handler (AppState B) Text
  unfolding next_address get_label_ip set_label_ip
  address_for none state = next_address state
  address_for (some label) state = labelled label (get_label_ip B label state.store) state

  -- the handler from where the address is known
  abbrev pub connected :
      Text → ℕ → Text → ConnectRequest → Text → Handler (AppState B) ConnectResponse
  connected id now endpoint req vpn_ip = do
    storing B (
        put_connection B (record {
          id = id;
          pubkey = req.pubkey;
          vpn_ip = vpn_ip;
          label = req.label;
          connected_at = now;
          last_seen = now;
        }))
    λ state. (
      done (record {
        id = id;
        vpn_ip = vpn_ip;
        master_pubkey = state.master_pub_key;
        master_endpoint = endpoint;
        heartbeat_interval_secs = 30;
      }),
      state,
    )

  unfoldable pub connect_handler :
      Text → ℕ → Text → Auth → ConnectRequest → Handler (AppState B) ConnectResponse
  unfolding evict address_for
  connect_handler id now endpoint auth req = do
    guard forbidden (may Verb.create auth)
    λ state. (checked (validate_wg_pubkey req.pubkey), state)
    λ state. (done tt, evict req state)
    vpn_ip ← address_for req.label
    connected id now endpoint req vpn_ip

  unfoldable pub disconnect_handler : Auth → Text → Handler (AppState B) (Unit {0})
  unfolding get_connection delete_connection
  disconnect_handler auth id = do
    guard forbidden (may Verb.delete auth)
    found ← reading B (get_connection B id)
    expect not_found found
    storing B (delete_connection B id)

  unfoldable pub connection_heartbeat_handler : ℕ → Auth → Text → Handler (AppState B) (Unit {0})
  unfolding update_connection_heartbeat
  connection_heartbeat_handler now auth id = do
    guard forbidden (may Verb.update auth)
    found ← storing B (update_connection_heartbeat B id now)
    guard not_found (λ state. found)
