-- ===== src/Tests/Access.antt =====
-- `can`, the extractors and the gate.
use rust4eska.Prelude.{
  ◌≡◌, ◌↔◌, ◌⊎◌, ◌≢◌, refl, Text, text, some, true, false, all, arith, [], ◌++◌,
}
unfoldable use rust4eska.Prelude.{strip_suffix}
use rust4eska.Models.{Verb, Resource}
use rust4eska.Backend.{is_ok}
use rust4eska.Backend.Memory.{memory, lookup, entries}
use rust4eska.Store.Entities
use rust4eska.Store.Rbac.{can}
use rust4eska.Store.Rbac.Spec.{Granted}
use rust4eska.Store.Rbac.Sound.{can_sound, can_complete}
use rust4eska.Server.Auth.{
  require_token, require_admin_secret, require_token_iff, require_admin_secret_iff,
}
use rust4eska.Server.Gate.{
  v4, require_vpn_for_api, require_vpn_for_api_iff, IsOpen, IsLocal, to_bits,
}
use rust4eska.Store.Entries.{HasEntry}
use rust4eska.Tests.Granting.{granted}
use rust4eska.Tests.Sample.{store, state, table, t1}

can_prod : can memory store (text "alice") Verb.get Resource.vault (some (text "prod-db")) ≡ true
unfolding can Entities.get_bindings_for_subject Entities.get_policy lookup entries strip_suffix
can_prod = refl

can_staging :
    can memory store (text "alice") Verb.get Resource.vault (some (text "staging-db")) ≡ false
unfolding can Entities.get_bindings_for_subject Entities.get_policy lookup entries strip_suffix
can_staging = refl

can_sound_example :
    Granted memory table (text "alice") Verb.get Resource.vault (some (text "prod-db"))
can_sound_example =
    can_sound memory store (text "alice") Verb.get Resource.vault (some (text "prod-db")) can_prod

bindings_readable : all is_ok (entries (text "bindings") table table) ≡ true
unfolding entries lookup
bindings_readable = refl

can_complete_example :
    can memory store (text "alice") Verb.get Resource.vault (some (text "prod-db")) ≡ true
can_complete_example =
    can_complete memory store (text "alice") Verb.get Resource.vault (some (text "prod-db"))
      (entries (text "bindings") table table) refl bindings_readable granted

bearer_alice : require_token memory state (some (text "Bearer tok")) ≡ some t1
unfolding require_token Entities.get_token lookup
bearer_alice = refl

require_token_iff_example : (require_token memory state (some (text "Bearer tok")) ≡ some t1) ↔ (
    (id : Text) × (some (text "Bearer tok") ≡ some (text "Bearer " ++ id))
    × HasEntry memory memory.token_json (text "tokens") id table t1)
require_token_iff_example = require_token_iff memory state (some (text "Bearer tok")) t1

require_admin_secret_iff_example :
    (require_admin_secret memory state (some (text "s3cret")) ≡ true)
    ↔ ((text "adm1n" ≢ []) × (some (text "s3cret") ≡ some (text "adm1n")))
require_admin_secret_iff_example = require_admin_secret_iff memory state (some (text "s3cret"))

require_vpn_for_api_iff_example :
    (require_vpn_for_api (v4 172 31 0 1) (text "/api/nodes") false ≡ true)
    ↔ (IsOpen (text "/api/nodes") false ⊎ IsLocal (to_bits 172 31 0 1))
require_vpn_for_api_iff_example =
    require_vpn_for_api_iff 172 31 0 1 (text "/api/nodes") false (omega arith) (omega arith)
      (omega arith) (omega arith)
