-- ===== src/Tests/Migrating.antt =====
-- An old token without permissions.
use rust4eska.Prelude.{◌≡◌, refl, text, some, [], ◌∷◌, Result, ok, true}
use rust4eska.Models.{Verb, Resource}
use rust4eska.Backend.Memory.{memory, lookup, without, entries, plain, Doc}
use rust4eska.Store.{Store}
use rust4eska.Store.Entities.{get_bindings_for_subject, get_policy}
use rust4eska.Store.Migration.{LegacyToken, migrate_rbac_v1_to_v2}
use rust4eska.Store.Rbac.{can}
use rust4eska.Tests.Sample.{store}

abbrev powerless : LegacyToken
powerless = record {
  has_role = true;
  has_permissions = true;
  id = some (text "t9");
  username = some (text "bob");
  created_at = some 7;
  role = some (text "agent");
  permissions = [];
}

abbrev read : Doc → Result LegacyToken
read d = ok powerless

abbrev migrated : Store memory
migrated =
    (migrate_rbac_v1_to_v2 memory read
      (record store { db = (text "tokens", text "t9", plain []) ∷ [] })).1

-- After the migration its holder may read everything.
reads_all : can memory migrated (text "bob") Verb.get Resource.vault (some (text "prod/db")) ≡ true
unfolding migrate_rbac_v1_to_v2 can get_bindings_for_subject get_policy lookup without entries
reads_all = refl
