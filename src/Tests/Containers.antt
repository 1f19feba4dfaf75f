-- ===== src/Tests/Containers.antt =====
-- A node with a container that is out of date and one that no manifest asks for.
unfoldable use rust4eska.Prelude.{}
use rust4eska.Prelude.{
  ◌≡◌, ◌⊎◌, Each, refl, Text, text, Option, none, some, List, [], ◌∷◌, ◌++◌, ok, here,
}
use rust4eska.Models.{Manifest, ContainerConfig}
use rust4eska.Worker.{
  Docker, Container, Plan, Command, managed_containers, container_name, resolve_env, ensure_all,
  orphan_ids, reconcile,
}
use rust4eska.Worker.Listed.{Listed}
use rust4eska.Worker.Orphans.{NamedFor, reconcile-orphans}

abbrev config : ContainerConfig
config = record {
  image = text "web:2";
  restart = text "always";
  command = none;
  ports = none;
  volumes = none;
}

abbrev web : Manifest
web = record {
  app = record { name = text "web"; node_selector = text "n1" };
  container = some config;
  systemd = none;
  ingress = none;
  env = (text "PASS", text "vault://prod/db") ∷ [];
}

abbrev containers : List Container
containers =
    record { id = some (text "c1"); names = some (text "/r4a-web" ∷ []) }
    ∷ record { id = some (text "c2"); names = some (text "/r4a-old" ∷ []) }
    ∷ []

abbrev docker : Docker
docker = record {
  list_containers = ok containers;
  inspect_container = λ id. ok (some (record { image = some (text "web:1"); env = none }));
}

abbrev fetch : Text → Text → Text → Option Text
fetch token config_id key = some (config_id ++ key)

abbrev plan : Plan
plan = record {
  ensured =
      Command.stop_container (text "c1")
      ∷ Command.remove_container (text "c1")
      ∷ Command.start_container (text "r4a-web") config ((text "PASS", text "proddb") ∷ [])
      ∷ [];
  orphans = text "c2" ∷ [];
}

abbrev wanted : List (Text × Manifest)
wanted = (text "web", web) ∷ []

reconciles : reconcile docker fetch (text "tok") (text "n1") wanted ≡ ok plan
unfolding reconcile ensure_all orphan_ids managed_containers container_name resolve_env
reconciles = refl

reconcile-orphans_example :
    (name : Text) × Listed containers (some (text "c2")) name
    × Each (λ e. (e.1.container ≡ none) ⊎ ¬ NamedFor (text "n1") e.0 e.1 name) wanted
reconcile-orphans_example =
    reconcile-orphans docker fetch (text "tok") (text "n1") wanted containers plan (text "c2") refl
      reconciles here
