-- ===== src/Worker.antt =====
-- The reconciler of an agent, crates/r4a-worker/src/lib.rs: which containers and services
-- `Reconciler::reconcile` starts and removes. What Docker lists and inspects, and what the master
-- answers for a secret, come from outside; a container is inspected once at most. The commands are
-- values, in the order of the calls, and their failures change nothing.
pub mod Listed
pub mod Orphans
use rust4eska.Prelude.{
  ℕ, Text, text, text_eq, nat_eq, Option, none, some, List, [], ◌∷◌, ◌++◌, Result, ok, err, Bool,
  true, false, not, ◌||◌, ◌==◌, any, if◌then◌else◌, is_empty, strip_prefix, lookup, insert, remove,
}
unfoldable use rust4eska.Prelude.{split_once}
use rust4eska.Models.{Manifest, ContainerConfig, SystemdConfig}
unfoldable use rust4eska.Store.Vault.{trim_start_matches}

-- What Docker says of a container.
pub record Container : Type 0 where
  pub id : Option Text
  pub names : Option (List Text)

pub record Inspected : Type 0 where
  pub image : Option Text
  pub env : Option (List Text)

pub record Docker : Type 0 where
  -- the containers with the label of the node
  pub list_containers : Result (List Container)
  pub inspect_container : Text → Result (Option Inspected)

pub data Command : Type 0 where
  stop_container remove_container : Text → Command
  start_container : Text → ContainerConfig → List (Text × Text) → Command
  enable : Text → Text → Command

-- the commands for the manifests, and then the ids of the containers that are removed by force
pub record Plan : Type 0 where
  pub ensured : List Command
  pub orphans : List Text

abbrev pub Managed : Type 0
Managed = List (Text × Option Text)

abbrev pub add_names : Option Text → List Text → Managed → Managed
add_names id [] found = found
add_names id (name ∷ names) found =
    add_names id names (insert (trim_start_matches name (text "/")) id found)

abbrev pub add_container : Container → Option (List Text) → Managed → Managed
add_container c (some names) found = add_names c.id names found
add_container c none found = found

unfoldable pub managed_containers : List Container → Managed → Managed
unfolding trim_start_matches
managed_containers [] found = found
managed_containers (c ∷ cs) found = managed_containers cs (add_container c c.names found)

unfoldable pub container_name : Text → Text → Manifest → Text
container_name node_name name manifest =
    if manifest.app.node_selector == text "all"
    then text "r4a-" ++ (name ++ (text "-" ++ node_name))
    else text "r4a-" ++ name

abbrev path_parts : Text → Option (Text × Text) → Text × Text
path_parts path (some parts) = parts
path_parts path none = (text "default", path)

abbrev pub or_value : Text → Option Text → Text
or_value v (some secret) = secret
or_value v none = v

-- the path of a secret, `&v[8..]`, or `None` where the value is no reference to the vault
abbrev after_scheme : Text → Option Text
after_scheme v = strip_prefix v (text "vault://")

module _ (fetch : Text → Text → Text → Option Text) (token : Text) where
  -- a value of the environment; `fetch` yields a secret where the master answers 200 with a text
  abbrev resolved : Text → Option Text → Text
  resolved v none = v
  resolved v (some path) =
      let (config_id, key) = path_parts path (split_once path (text "/")) in
      if is_empty token then v else or_value v (fetch token config_id key)

  unfoldable pub resolve_env : List (Text × Text) → List (Text × Text)
  unfolding split_once
  resolve_env [] = []
  resolve_env ((k, v) ∷ env) = (k, resolved v (after_scheme v)) ∷ resolve_env env

-- `!existing_env.contains(&format!("{}={}", k, v))` for some variable
abbrev pub env_changed : List (Text × Text) → Option (List Text) → Bool
env_changed env (some existing) =
    any (λ (e : Text × Text). not (any (λ s. s == e.0 ++ (b'=' ∷ e.1)) existing)) env
env_changed [] none = false
env_changed (e ∷ env) none = true

abbrev has_image : Text → Option Text → Bool
has_image image (some i) = i == image
has_image image none = false

abbrev pub needs_restart : ContainerConfig → List (Text × Text) → Result (Option Inspected) → Bool
needs_restart config env (ok (some c)) =
    env_changed env c.env || not (has_image config.image c.image)
needs_restart config env _ = false

module _ (docker : Docker) (fetch : Text → Text → Text → Option Text) (token node_name : Text) where
  abbrev replace : Text → Text → ContainerConfig → List (Text × Text) → Bool → List Command
  replace id name config env true =
      stop_container id ∷ remove_container id ∷ start_container name config env ∷ []
  replace id name config env false = []

  -- what is done for a container, from what is managed under its name
  abbrev ensure : Text → ContainerConfig → List (Text × Text) → Option (Option Text) → List Command
  ensure name config env (some (some id)) =
      replace id name config env (needs_restart config env (docker.inspect_container id))
  ensure name config env _ = start_container name config env ∷ []

  abbrev ensure_service : Text → Option SystemdConfig → List Command
  ensure_service name (some config) = enable (text "r4a-" ++ name) config.exec ∷ []
  ensure_service name none = []

  abbrev ensure_container : Text → Manifest → Option ContainerConfig → Managed → List Command
  ensure_container name manifest (some config) managed =
      ensure (container_name node_name name manifest) config (resolve_env fetch token manifest.env)
        (lookup (container_name node_name name manifest) managed)
  ensure_container name manifest none managed = []

  -- `managed_containers.remove(&container_name)`
  abbrev pub still_managed : Text → Manifest → Option ContainerConfig → Managed → Managed
  still_managed name manifest (some config) managed =
      remove (container_name node_name name manifest) managed
  still_managed name manifest none managed = managed

  -- the loop over the manifests: its commands, and what stays managed
  unfoldable pub ensure_all : List (Text × Manifest) → Managed → List Command × Managed
  unfolding container_name resolve_env
  ensure_all [] managed = ([], managed)
  ensure_all ((name, manifest) ∷ manifests) managed =
      let (more, left) =
        ensure_all manifests (still_managed name manifest manifest.container managed) in
      (
        ensure_container name manifest manifest.container managed
            ++ (ensure_service name manifest.systemd ++ more),
        left,
      )

  abbrev with_id : Option Text → List Text → List Text
  with_id (some id) ids = id ∷ ids
  with_id none ids = ids

  unfoldable pub orphan_ids : Managed → List Text
  orphan_ids [] = []
  orphan_ids ((name, id) ∷ managed) = with_id id (orphan_ids managed)

  abbrev pub plan_for : List (Text × Manifest) → List Container → Plan
  plan_for manifests containers =
      let (commands, left) = ensure_all manifests (managed_containers containers []) in
      record { ensured = commands; orphans = orphan_ids left }

  unfoldable pub reconcile : List (Text × Manifest) → Result Plan
  unfolding ensure_all orphan_ids managed_containers
  reconcile manifests = elim docker.list_containers [
    | ok containers ↦ ok (plan_for manifests containers)
    | err e ↦ err e
  ]
