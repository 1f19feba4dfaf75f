-- ===== src/Store/Migration.antt =====
-- The migration of old tokens, `migrate_rbac_v1_to_v2` of crates/r4a-store/src/lib.rs. What serde_json
-- reads of an old token comes from outside.
use rust4eska.Prelude.{
  ℕ, Text, text, text_eq, nat_eq, Option, none, some, List, [], ◌∷◌, ◌++◌, Result, ok, err, Exec,
  pure, lift, reads, Bool, true, false, not, ◌&&◌, ◌||◌, ◌==◌, any, if◌then◌else◌, ◌>>=◌, ◌>>◌,
}
use rust4eska.Models.{Verb, Resource, Rule, Policy, Binding, Token}
use rust4eska.Backend.{Backend, Json}
use rust4eska.Store.{Store, on_db}

-- The fields of the JSON value that the code looks at: `None` where one is missing or of another type;
-- `permissions` are the strings of the array.
pub record LegacyToken : Type 0 where
  pub has_role : Bool
  pub has_permissions : Bool
  pub id : Option Text
  pub username : Option Text
  pub created_at : Option ℕ
  pub role : Option Text
  pub permissions : List Text

abbrev or_text : Text → Option Text → Text
or_text other (some s) = s
or_text other none = other

abbrev or_zero : Option ℕ → ℕ
or_zero (some n) = n
or_zero none = 0

abbrev pub username_of : LegacyToken → Text
username_of legacy = or_text (text "unknown") legacy.username

abbrev is_admin_role : Option Text → Bool
is_admin_role (some role) = role == text "admin"
is_admin_role none = false

abbrev is_global : Text → Bool
is_global perm = perm == text "*" || perm == text "global/*"

-- the loop over the permissions, which a global one ends with no names
abbrev names_from : List Text → List Text → List Text
names_from names [] = names
names_from names (perm ∷ perms) =
    let rest = names_from (names ++ (perm ∷ [])) perms in if is_global perm then [] else rest

abbrev no_names : List Text → Bool
no_names [] = true
no_names (name ∷ names) = false

abbrev pub agent_rule : List Text → Rule
agent_rule perms =
    let names = names_from [] perms in
    if no_names names || any is_global perms
    then record { verbs = Verb.get ∷ []; resources = Resource.all ∷ []; resource_names = none }
    else record {
      verbs = Verb.get ∷ [];
      resources = Resource.vault ∷ [];
      resource_names = some names;
    }

abbrev pub admin_rule : Rule
admin_rule = record { verbs = Verb.all ∷ []; resources = Resource.all ∷ []; resource_names = none }

abbrev policy_with : Text → Rule → Policy
policy_with username rule = record { id = text "policy-" ++ username; rules = rule ∷ [] }

abbrev binding_for : Text → Binding
binding_for username = record {
  id = text "binding-" ++ username;
  subject = username;
  policy_id = text "policy-" ++ username;
}

abbrev token_for : LegacyToken → Token
token_for legacy = record {
  id = or_text [] legacy.id;
  username = username_of legacy;
  created_at = or_zero legacy.created_at;
}

module _ (B : Backend) (read_legacy : B.Blob → Result LegacyToken) where
  open B use {Blob, Db, db_insert, db_remove, db_iter, policy_json, binding_json, token_json}

  abbrev insert_as : {A : Type 0} → Json Blob A → Text → Text → A → Exec (Store B) (Unit {0})
  insert_as json tree key a = do value ← lift (json.to_vec a); on_db B (db_insert tree key value)

  -- the policy, its binding and the new token in place of the old
  unfoldable pub write_migrated : Text → LegacyToken → Rule → Exec (Store B) (Unit {0})
  write_migrated key legacy rule = do
    let username = username_of legacy
    insert_as policy_json (text "policies") (text "policy-" ++ username) (policy_with username rule)
    insert_as binding_json (text "bindings") (text "binding-" ++ username) (binding_for username)
    insert_as token_json (text "tokens") key (token_for legacy)

  -- `let _ = tokens_tree.remove(k)`
  abbrev drop_token : Text → Exec (Store B) (Unit {0})
  drop_token key s = (ok tt, record s { db = (db_remove (text "tokens") key s.db).1 })

  abbrev migrate_admin : Text → LegacyToken → List Text → Bool → Exec (Store B) (List Text)
  migrate_admin key legacy seen true = do drop_token key; pure seen
  migrate_admin key legacy seen false = do
    write_migrated key legacy admin_rule
    pure (username_of legacy ∷ seen)

  -- one turn of the loop; its result is the admins that were met
  unfoldable pub migrate_token : Text → LegacyToken → List Text → Exec (Store B) (List Text)
  unfolding write_migrated
  migrate_token key legacy seen =
      if not legacy.has_role && not legacy.has_permissions
      then pure seen
      else if is_admin_role legacy.role
      then migrate_admin key legacy seen (any (λ s. s == username_of legacy) seen)
      else (do write_migrated key legacy (agent_rule legacy.permissions); pure seen)

  -- An entry that cannot be read is passed over, and one that is no JSON ends the loop.
  unfoldable pub migrate_all : List (Result (Text × Blob)) → List Text → Exec (Store B) (Unit {0})
  unfolding migrate_token
  migrate_all [] seen = pure tt
  migrate_all (err e ∷ items) seen = migrate_all items seen
  migrate_all (ok (key, value) ∷ items) seen = do
    legacy ← lift (read_legacy value)
    seen' ← migrate_token key legacy seen
    migrate_all items seen'

  unfoldable pub migrate_rbac_v1_to_v2 : Exec (Store B) (Unit {0})
  unfolding migrate_all
  migrate_rbac_v1_to_v2 = do items ← reads (λ s. db_iter (text "tokens") s.db); migrate_all items []
