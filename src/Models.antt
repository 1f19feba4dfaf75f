-- ===== src/Models.antt =====
-- The shared data of crates/r4a-core/src/models/mod.rs and crates/r4a-core/src/lib.rs. A `String` is
-- the list of its bytes; `f32` is the parameter `F`, since no code modelled here computes with one.
use rust4eska.Prelude.{ℕ, ◌≡◌, Text, Option, List, Eq, Bool, true, ◌↔◌, arith, nat_beq}

pub data Verb : Type 0 where
  get list create update delete all : Verb

pub data Resource : Type 0 where
  nodes manifests vault git_repos registry tokens policies bindings connections logs all : Resource

-- the place of a variant in its enum
abbrev verb_index : Verb → ℕ
verb_index Verb.get = 0
verb_index Verb.list = 1
verb_index Verb.create = 2
verb_index Verb.update = 3
verb_index Verb.delete = 4
verb_index Verb.all = 5

abbrev resource_index : Resource → ℕ
resource_index Resource.nodes = 0
resource_index Resource.manifests = 1
resource_index Resource.vault = 2
resource_index Resource.git_repos = 3
resource_index Resource.registry = 4
resource_index Resource.tokens = 5
resource_index Resource.policies = 6
resource_index Resource.bindings = 7
resource_index Resource.connections = 8
resource_index Resource.logs = 9
resource_index Resource.all = 10

-- the derived `PartialEq`
abbrev pub verb_beq : Verb → Verb → Bool
verb_beq v w = nat_beq (verb_index v) (verb_index w)

pub verb_beq_iff : (v w : Verb) → (verb_beq v w ≡ true) ↔ (v ≡ w)
verb_beq_iff v w = ground arith

instance abbrev pub verb_eq : Eq Verb
verb_eq = record { same = verb_beq; same_iff = verb_beq_iff }

abbrev pub resource_beq : Resource → Resource → Bool
resource_beq v w = nat_beq (resource_index v) (resource_index w)

pub resource_beq_iff : (v w : Resource) → (resource_beq v w ≡ true) ↔ (v ≡ w)
resource_beq_iff v w = ground arith

instance abbrev pub resource_eq : Eq Resource
resource_eq = record { same = resource_beq; same_iff = resource_beq_iff }

pub record Rule : Type 0 where
  pub verbs : List Verb
  pub resources : List Resource
  pub resource_names : Option (List Text)

pub record Policy : Type 0 where
  pub id : Text
  pub rules : List Rule

pub record Binding : Type 0 where
  pub id : Text
  pub subject : Text
  pub policy_id : Text

pub record User : Type 0 where
  pub username : Text
  pub password_hash : Text

pub record Token : Type 0 where
  pub id : Text
  pub username : Text
  pub created_at : ℕ

pub record Connection : Type 0 where
  pub id : Text
  pub pubkey : Text
  pub vpn_ip : Text
  pub label : Option Text
  pub connected_at : ℕ
  pub last_seen : ℕ

pub record PeerInfo (F : Type 0) : Type 0 where
  pub pub_key : Text
  pub ip : Text
  pub name : Text
  pub role : Text
  pub public_endpoint : Option Text
  pub observed_endpoint : Option Text
  pub p2p_direct : Option (List Text)
  pub cpu_percent : Option F
  pub ram_used_mb : Option ℕ
  pub ram_total_mb : Option ℕ
  pub vram_used_mb : Option ℕ
  pub vram_total_mb : Option ℕ
  pub last_seen : Option ℕ

pub record JoinRequest : Type 0 where
  pub pub_key : Text
  pub name : Option Text
  pub role : Option Text
  pub public_endpoint : Option Text

pub data AgentUpdateStatus : Type 0 where
  unknown pending updating updated : AgentUpdateStatus
  failed : Text → AgentUpdateStatus

pub record AgentUpdateState : Type 0 where
  pub status : AgentUpdateStatus
  pub checksum : Option Text

pub record VaultSecret : Type 0 where
  pub config_id : Text
  pub key : Text
  pub encrypted_value : List ℕ
  pub nonce : List ℕ
  pub updated_at : ℕ

pub record ContainerConfig : Type 0 where
  pub image : Text
  pub restart : Text
  pub command : Option (List Text)
  pub ports : Option (List Text)
  pub volumes : Option (List Text)

pub record SystemdConfig : Type 0 where
  pub exec : Text
  pub user : Option Text
  pub working_dir : Option Text

pub record AppConfig : Type 0 where
  pub name : Text
  pub node_selector : Text

pub record IngressConfig : Type 0 where
  pub domain : Text
  pub container_port : ℕ

pub record Manifest : Type 0 where
  pub app : AppConfig
  pub container : Option ContainerConfig
  pub systemd : Option SystemdConfig
  pub ingress : Option IngressConfig
  pub env : List (Text × Text)

pub record VaultConfig : Type 0 where
  pub id : Text
  pub name : Text
  pub created_at : ℕ

pub record KekDek : Type 0 where
  pub config_id : Text
  pub encrypted_dek : List ℕ
  pub nonce : List ℕ

-- a stored manifest of the image registry, crates/r4a-git-registry/src/registry.rs
pub record ManifestRecord : Type 0 where
  pub repo : Text
  pub digest : Text
  pub media_type : Text
  pub size : ℕ
  pub created_at : ℕ
  pub body : Text

-- what binaries/r4a-server/src/main.rs reads of it
pub record RegistryManifestRecord : Type 0 where
  pub size : ℕ
  pub created_at : ℕ
  pub body : Text

-- a point of the history of a node's metrics, crates/r4a-telemetry/src/lib.rs
pub record MetricPoint (F : Type 0) : Type 0 where
  pub node : Text
  pub ts_ms : ℕ
  pub cpu_percent : F
  pub ram_used_mb : ℕ
  pub ram_total_mb : ℕ
  pub vram_used_mb : Option ℕ
  pub vram_total_mb : Option ℕ
