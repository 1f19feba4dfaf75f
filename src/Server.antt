-- ===== src/Server.antt =====
-- The state of the master, `AppState` of binaries/r4a-server/src/main.rs. A mutex guards one field
-- each; every handler modelled here holds a lock from its read to its write. The telemetry store and
-- the node's own name, which these handlers do not touch, are left out.
pub mod Auth
pub mod Gate
pub mod Peers
pub mod Join
pub mod Update
pub mod Reply
pub mod Connections
pub mod Tokens
pub mod Registry
pub mod Manifests
pub mod Vault
pub mod Users
use rust4eska.Prelude.{ℕ, Text, Bool, List}
use rust4eska.Models.{PeerInfo, AgentUpdateState}
use rust4eska.Backend.{Backend}
use rust4eska.Store.{Store}

pub record AppState (B : Backend) : Type 0 where
  pub master_pub_key : Text
  pub cluster_secret : Text
  pub admin_secret : Text
  pub peers : List (Text × PeerInfo B.Float)
  pub next_ip : ℕ
  pub update_pending : Bool
  pub agent_update_states : List (Text × AgentUpdateState)
  pub store : Store B
