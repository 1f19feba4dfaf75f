-- ===== src/Server/Join.antt =====
-- `join_handler` of binaries/r4a-server/src/main.rs: how an agent enters the cluster. From outside
-- come `allow_master_join` (an environment variable), the time, and the token that `generate_token`
-- draws, which is used only if no token of the name is left. The call of `wg` is outside. The task
-- that the handler spawns is a value, `run_join_task` what it does when it runs.

pub mod Pool
pub mod Rights
use rust4eska.Prelude.{
  ℕ, ◌+◌, Text, text, text_eq, nat_eq, Option, none, some, List, [], ◌∷◌, ◌++◌, ◌<>◌, map, Result,
  ok, err, Bool, true, false, not, ◌&&◌, ◌||◌, ◌==◌, if◌then◌else◌, ltb, filter, decimal, lookup,
  insert, remove, bind,
}
use rust4eska.Models.{PeerInfo, JoinRequest, Token, Policy, Rule, Binding, Verb, Resource}
use rust4eska.Backend.{Backend, Json}
use rust4eska.Store.{Store}
use rust4eska.Store.Entities.{put_policy, put_binding, put_token}
use rust4eska.Vpn.{validate_wg_pubkey, validate_endpoint, validate_node_name}
use rust4eska.Server.{AppState}
use rust4eska.Server.Peers.{Peers, save_peers}

-- the status of a refusal
pub data Refusal : Type 0 where
  bad_request_400 service_unavailable_503 : Refusal

pub data Reply (A : Type 0) : Type 0 where
  accepted : A → Reply A
  refused : Refusal → Reply A

abbrev validate_opt : (Text → Result (Unit {0})) → Option Text → Result (Unit {0})
validate_opt check none = ok tt
validate_opt check (some s) = check s

unfoldable pub validate_join : JoinRequest → Result (Unit {0})
unfolding validate_wg_pubkey validate_endpoint validate_node_name
validate_join req = bind (validate_wg_pubkey req.pub_key) λ u.
    bind (validate_opt validate_endpoint req.public_endpoint)
      λ v. validate_opt validate_node_name req.name

unfoldable pub role_of : Bool → Option Text → Text
role_of allow_master_join none = text "agent"
role_of allow_master_join (some requested_role) =
    if requested_role == text "master" && allow_master_join then text "master" else text "agent"

-- `format!("10.42.0.{}", n)`
unfoldable pub ip_of : ℕ → Text
ip_of n = text "10.42.0." ++ decimal n

-- An address from the pool, and the next one; the pool ends at 254.
unfoldable pub allocate_ip : ℕ → Option (Text × ℕ)
unfolding ip_of
allocate_ip next = if ltb 254 next then none else some (ip_of next, next + 1)

-- The address of a known key is kept.
unfoldable pub agent_ip : {F : Type 0} → Option (PeerInfo F) → ℕ → Option (Text × ℕ)
unfolding allocate_ip
agent_ip (some existing) next = some (existing.ip, next)
agent_ip none next = allocate_ip next

-- `&ip[ip.rfind('.').unwrap_or(0) + 1..]`; a text with no dot loses its first character.
abbrev after_last_dot : Text → Option Text
after_last_dot [] = none
after_last_dot (c ∷ s) = elim (after_last_dot s) [
  | some rest ↦ some rest
  | none ↦ if c == b'.' then some s else none
]

abbrev tail : Text → Text
tail [] = []
tail (c ∷ s) = s

unfoldable pub node_name : Option Text → Text → Text → Text
node_name (some name) role ip = name
node_name none role ip =
    role <> text "-" <> (elim (after_last_dot ip) [ some rest ↦ rest | none ↦ tail ip ])

unfoldable pub policy_for : Text → Text → Policy
policy_for role policy_id =
    if role == text "master"
    then record {
      id = policy_id;
      rules =
          record { verbs = Verb.all ∷ []; resources = Resource.all ∷ []; resource_names = none }
          ∷ [];
    }
    else record {
      id = policy_id;
      rules =
          record {
            verbs = Verb.get ∷ [];
            resources = Resource.vault ∷ Resource.manifests ∷ [];
            resource_names = none;
          }
          ∷ [];
    }

pub record JoinResponse (B : Backend) : Type 0 where
  pub master_pub_key : Text
  pub agent_vpn_ip : Text
  pub peers : List (Text × PeerInfo B.Float)
  pub agent_token : Text

pub record JoinTask (B : Backend) : Type 0 where
  pub policy : Policy
  pub binding : Binding
  pub token : Token
  pub peers : List (Text × PeerInfo B.Float)

module _ (B : Backend) where
  open B use {Db, Blob, Float, db_iter, db_remove, token_json}

  -- the tokens of a tree with their keys, without what cannot be read
  abbrev key_of : Text → Text → Result Token → List Text → List Text
  key_of name k (ok token) rest = if token.username == name then k ∷ rest else rest
  key_of name k (err e) rest = rest

  abbrev token_keys : Text → List (Result (Text × Blob)) → List Text
  token_keys name [] = []
  token_keys name (err e ∷ items) = token_keys name items
  token_keys name (ok (k, v) ∷ items) =
      key_of name k (token_json.from_slice v) (token_keys name items)

  abbrev remove_all : List Text → Db → Db
  remove_all [] db = db
  remove_all (k ∷ ks) db = remove_all ks (db_remove (text "tokens") k db).1

  abbrev remove_listed : Text → Result (List (Result (Text × Blob))) → Db → Db
  remove_listed name (ok items) db = remove_all (token_keys name items) db
  remove_listed name (err e) db = db

  -- Removing the old tokens of a name; failures are passed over.
  unfoldable pub remove_tokens : Text → Db → Db
  remove_tokens name db = remove_listed name (db_iter (text "tokens") db) db

  abbrev id_of : Text → Result Token → Option Text → Option Text
  id_of name (ok token) rest = if token.username == name then some token.id else rest
  id_of name (err e) rest = rest

  abbrev token_id : Text → List (Result (Text × Blob)) → Option Text
  token_id name [] = none
  token_id name (err e ∷ items) = token_id name items
  token_id name (ok (k, v) ∷ items) = id_of name (token_json.from_slice v) (token_id name items)

  abbrev listed_token_id : Text → Result (List (Result (Text × Blob))) → Option Text
  listed_token_id name (ok items) = token_id name items
  listed_token_id name (err e) = none

  unfoldable pub existing_token_id : Text → Db → Option Text
  existing_token_id name db = listed_token_id name (db_iter (text "tokens") db)

  abbrev or_fresh : Option Text → Text → Text
  or_fresh (some id) fresh = id
  or_fresh none fresh = fresh

  -- Peers of another key with the name are dropped, by a loop and then by `retain`.
  unfoldable pub drop_namesakes : Text → Text → Peers B → Peers B
  drop_namesakes name pub_key peers =
      filter (λ e. not (e.1.name == name) || e.0 == pub_key)
        (filter (λ e. not (e.1.name == name && not (e.0 == pub_key))) peers)

  abbrev pub new_peer : JoinRequest → Text → Text → Text → ℕ → PeerInfo Float
  new_peer req ip name role now = record {
    pub_key = req.pub_key;
    ip = ip;
    name = name;
    role = role;
    public_endpoint = req.public_endpoint;
    observed_endpoint = none;
    p2p_direct = none;
    cpu_percent = none;
    ram_used_mb = none;
    ram_total_mb = none;
    vram_used_mb = none;
    vram_total_mb = none;
    last_seen = some now;
  }

  -- the handler from where the address is known
  unfoldable pub admit :
      JoinRequest
      → Text
      → Text
      → ℕ
      → ℕ
      → Text
      → AppState B
      → JoinResponse B × AppState B × JoinTask B
  unfolding remove_tokens existing_token_id drop_namesakes node_name policy_for
  admit req role ip next now fresh state =
      let name = node_name req.name role ip in
      let db' = remove_tokens name state.store.db in
      let token_str = or_fresh (existing_token_id name db') fresh in
      let peers' =
        insert req.pub_key (new_peer req ip name role now)
          (drop_namesakes name req.pub_key state.peers) in
      let policy_id = text "policy-" ++ token_str in
      (
        record {
          master_pub_key = state.master_pub_key;
          agent_vpn_ip = ip;
          peers = peers';
          agent_token = token_str;
        },
        record state { peers = peers'; next_ip = next; store = record state.store { db = db' } },
        record {
          policy = policy_for role policy_id;
          binding = record {
            id = text "binding-" ++ token_str;
            subject = name;
            policy_id = policy_id;
          };
          token = record { id = token_str; username = name; created_at = now };
          peers = peers';
        },
      )

  abbrev answer :
      JoinRequest
      → Text
      → ℕ
      → Text
      → AppState B
      → Option (Text × ℕ)
      → Reply (JoinResponse B × JoinTask B) × AppState B
  answer req role now fresh state none = (refused service_unavailable_503, state)
  answer req role now fresh state (some (ip, next)) =
      let (response, state', task) = admit req role ip next now fresh state in
      (accepted (response, task), state')

  unfoldable pub join_handler :
      Bool → ℕ → Text → JoinRequest → AppState B → Reply (JoinResponse B × JoinTask B) × AppState B
  unfolding validate_join role_of agent_ip admit
  join_handler allow_master_join now fresh req state = elim (validate_join req) [
    | err e ↦ (refused bad_request_400, state)
    | ok u ↦
        answer req (role_of allow_master_join req.role) now fresh state
          (agent_ip (lookup req.pub_key state.peers) state.next_ip)
  ]

  -- The spawned task: four writes, of which each is made whatever became of those before it.
  unfoldable pub run_join_task : JoinTask B → Store B → Store B
  unfolding put_policy put_binding put_token save_peers
  run_join_task task s =
      save_peers B task.peers
        (put_token B task.token (put_binding B task.binding (put_policy B task.policy s).1).1).1
