-- ===== src/Server/Update.antt =====
-- The cluster update in binaries/r4a-server/src/main.rs: agents poll whether an update is pending and
-- report what they did. `checksum`, an argument, is `sha256_file(AGENT_BINARY_PATH)`. A `HashMap` is
-- gone through from the back of its list; its keys are unique, so the order does not matter.
pub mod Done
use rust4eska.Prelude.{
  Text, text, text_eq, nat_eq, Option, none, some, List, [], ◌∷◌, map, Bool, true, false, not, ◌&&◌,
  ◌==◌, all, is_empty, filter, lookup, insert, values, if◌then◌else◌,
}
use rust4eska.Models.{PeerInfo, AgentUpdateStatus, AgentUpdateState}
use rust4eska.Backend.{Backend}
use rust4eska.Server.{AppState}

pub record UpdatePollResponse : Type 0 where
  pub update_pending : Bool
  pub checksum : Option Text

pub record UpdateReport : Type 0 where
  pub agent_vpn_ip : Text
  pub checksum : Text
  pub status : Text

unfoldable pub status_of : Text → AgentUpdateStatus
status_of status =
    if status == text "updated"
    then AgentUpdateStatus.updated
    else if status == text "updating"
    then AgentUpdateStatus.updating
    else if status == text "failed"
    then AgentUpdateStatus.failed (text "failed")
    else AgentUpdateStatus.unknown

abbrev is_updated : AgentUpdateStatus → Bool
is_updated AgentUpdateStatus.updated = true
is_updated _ = false

-- `a.as_deref() == b.as_deref()`
abbrev pub opt_eq : Option Text → Option Text → Bool
opt_eq none none = true
opt_eq (some a) (some b) = a == b
opt_eq none (some b) = false
opt_eq (some a) none = false

-- the test on one agent's state
abbrev pub is_done : Text → Option AgentUpdateState → Bool
is_done mc none = false
is_done mc (some s) = is_updated s.status && opt_eq s.checksum (some mc)

-- `!agent_ips.is_empty()`
abbrev pub some_ip : List Text → Bool
some_ip [] = false
some_ip (ip ∷ ips) = true

unfoldable pub all_updated : Text → List Text → List (Text × AgentUpdateState) → Bool
all_updated mc ips states = some_ip ips && all (λ ip. is_done mc (lookup ip states)) ips

pub record AgentUpdateStateDto : Type 0 where
  pub status : Text
  pub checksum : Option Text

unfoldable pub status_str : Option Text → AgentUpdateState → Text
status_str master_checksum s =
    let current = if opt_eq s.checksum master_checksum then text "updated" else text "idle" in
    elim s.status [
      | AgentUpdateStatus.updated ↦ text "updated"
      | AgentUpdateStatus.updating ↦ text "updating"
      | AgentUpdateStatus.failed why ↦ text "failed"
      | _ ↦ current
    ]

module _ (B : Backend) where
  unfoldable pub update_poll : Option Text → AppState B → UpdatePollResponse
  update_poll checksum state = record {
    update_pending = state.update_pending;
    checksum = if state.update_pending then checksum else none;
  }

  unfoldable pub update_trigger : AppState B → AppState B
  update_trigger state = record state { update_pending = true }

  abbrev pub agent_ips : AppState B → List Text
  agent_ips state = map (λ p. p.ip) (filter (λ p. p.role == text "agent") (values state.peers))

  unfoldable pub update_report : Option Text → UpdateReport → AppState B → AppState B
  unfolding status_of all_updated
  update_report checksum report state =
      let states =
        insert report.agent_vpn_ip
          (record { status = status_of report.status; checksum = some report.checksum })
          state.agent_update_states in
      let reported : AppState B = record state { agent_update_states = states } in
      elim checksum [
        | some mc ↦
            if all_updated mc (agent_ips state) states
            then record reported { update_pending = false }
            else reported
        | none ↦ reported
      ]

  -- the agents that are connected, before any report
  abbrev idle_agents : List Text → List (Text × AgentUpdateStateDto)
  idle_agents [] = []
  idle_agents (ip ∷ ips) =
      insert ip (record { status = text "idle"; checksum = none }) (idle_agents ips)

  abbrev overlay :
      Option Text
      → List (Text × AgentUpdateState)
      → List (Text × AgentUpdateStateDto)
      → List (Text × AgentUpdateStateDto)
  overlay mc [] agents = agents
  overlay mc ((ip, s) ∷ states) agents =
      insert ip (record { status = status_str mc s; checksum = s.checksum })
        (overlay mc states agents)

  -- the field `agents` of the response
  unfoldable pub update_status : Option Text → AppState B → List (Text × AgentUpdateStateDto)
  unfolding status_str
  update_status mc state = overlay mc state.agent_update_states (idle_agents (agent_ips state))
