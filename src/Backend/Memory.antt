-- ===== src/Backend/Memory.antt =====
-- A backend that keeps its entries in a list and never fails, for the examples: the interface can be
-- met. A stored value is the value itself.
mod Rows
unfoldable pub use Rows.*
use rust4eska.Prelude.{
  ℕ, ◌≡◌, refl, ap, Text, text_eq, nat_eq, Option, none, some, List, [], ◌∷◌, Result, eq_of_ok,
  In-cons, sym, ok, err, Error, Bool, true, false, ◌&&◌, ◌==◌, if◌then◌else◌, In, here, there, all,
  leb, ltb, arith, list_beq_iff, Bool-cases, starts_with, inl, inr, ◌⊎◌,
}
use rust4eska.Models.{
  Token, Policy, Binding, Connection, PeerInfo, Manifest, VaultSecret, VaultConfig, KekDek, User,
  ManifestRecord, RegistryManifestRecord, MetricPoint,
}
use rust4eska.Backend.{Backend, Json}

-- a kind of document, written by its constructor and read by its inverse
abbrev format :
    {A : Type 0} (wrap : A → Doc) (unwrap : Doc → Option A)
    → ((a : A) → unwrap (wrap a) ≡ some a)
    → Json Doc A
format wrap unwrap h = record {
  to_vec = λ a. ok (wrap a);
  from_slice = λ d. elim (unwrap d) [ some a ↦ ok a | none ↦ err Error.external ];
  from_slice-to_vec = λ a b p. rw (← eq_of_ok p, h a);
}

abbrev as_token : Doc → Option (Token)
as_token (token a) = some a
as_token _ = none

abbrev as_policy : Doc → Option (Policy)
as_policy (policy a) = some a
as_policy _ = none

abbrev as_binding : Doc → Option (Binding)
as_binding (binding a) = some a
as_binding _ = none

abbrev as_connection : Doc → Option (Connection)
as_connection (connection a) = some a
as_connection _ = none

abbrev as_manifest : Doc → Option (Manifest)
as_manifest (manifest a) = some a
as_manifest _ = none

abbrev as_secret : Doc → Option (VaultSecret)
as_secret (secret a) = some a
as_secret _ = none

abbrev as_vault_config : Doc → Option VaultConfig
as_vault_config (vault_config a) = some a
as_vault_config _ = none

abbrev as_kek_dek : Doc → Option KekDek
as_kek_dek (kek_dek a) = some a
as_kek_dek (legacy a) = some a
as_kek_dek _ = none

abbrev is_legacy : Doc → Bool
is_legacy (legacy a) = true
is_legacy _ = false

abbrev as_raw : Doc → List ℕ
as_raw (raw b) = b
as_raw _ = []

abbrev as_user : Doc → Option User
as_user (user a) = some a
as_user _ = none

abbrev as_record : Doc → Option ManifestRecord
as_record (stored_manifest a) = some a
as_record _ = none

abbrev as_metric : Doc → Option (MetricPoint ℕ)
as_metric (metric a) = some a
as_metric _ = none

abbrev summary : Option ManifestRecord → Result RegistryManifestRecord
summary (some r) = ok (record { size = r.size; created_at = r.created_at; body = r.body })
summary none = err Error.external

abbrev as_plain : Doc → Result Text
as_plain (plain s) = ok s
as_plain _ = err Error.external

abbrev as_peers : Doc → Option (List (Text × PeerInfo ℕ))
as_peers (peers a) = some a
as_peers _ = none

abbrev pub memory : Backend
memory = record {
  Db = Table;
  Blob = Doc;
  Float = ℕ;
  db_open = λ t db. ok tt;
  db_get = λ t k db. ok (lookup t k db);
  db_insert = λ t k v db. (ok tt, (t, k, v) ∷ without t k db);
  db_remove = λ t k db. (ok tt, without t k db);
  db_iter = λ t db. ok (entries t db db);
  db_flush = λ db. (ok tt, db);
  db_scan = λ t p db. ok (scanned p (entries t db db));
  db_take = λ t k db. (ok (lookup t k db), without t k db);
  get-insert = λ t k v db t' k' p. lookup-insert t k v db t' k';
  get-remove = λ t k db t' k' p. lookup-remove t k db t' k';
  get-insert_ne = λ t k v db t' k' h. lookup-insert_ne t k v db t' k' h;
  get-remove_ne = λ t k db t' k' h. lookup-remove_ne t k db t' k' h;
  get-flush = λ t k db. refl;
  get_of_iter = λ t k v db items p m. ap ok (entries-lookup t k v db db (rw (← eq_of_ok p) at m));
  iter_of_get = λ t k v db items p q r.
      rw (← eq_of_ok p) (lookup-entries t k v db db v (eq_of_ok r) (eq_of_ok r));
  get_of_scan = λ t p k v db items q m.
      let (i, h) = scanned-In p k v (entries t db db) (rw (← eq_of_ok q) at m) in
      (ap ok (entries-lookup t k v db db i), h);
  scan_of_get = λ t p k v db items q r g h. rw (← eq_of_ok q) (
      In-scanned p k v (entries t db db) (lookup-entries t k v db db v (eq_of_ok g) (eq_of_ok g))
        h);
  take-remove = λ t k db o h. (h, refl, refl);
  open_of_get = λ t k db o e. refl;
  is_header_value = λ s. all (λ c. leb 32 c && ltb c 127) s;
  of_text = plain;
  read_text = as_plain;
  read_text-of_text = λ s. refl;
  to_text = λ d. elim d [ plain s ↦ s | _ ↦ [] ];
  to_text-of_text = λ s. refl;
  token_json = format token as_token (λ a. refl);
  policy_json = format policy as_policy (λ a. refl);
  binding_json = format binding as_binding (λ a. refl);
  connection_json = format connection as_connection (λ a. refl);
  manifest_json = format manifest as_manifest (λ a. refl);
  secret_json = format secret as_secret (λ a. refl);
  vault_config_json = format vault_config as_vault_config (λ a. refl);
  of_bytes = raw;
  to_bytes = as_raw;
  to_bytes-of_bytes = λ b. refl;
  lacks_config_id = is_legacy;
  kek_dek_json = format kek_dek as_kek_dek (λ a. refl);
  user_json = format user as_user (λ a. refl);
  metric_json = format metric as_metric (λ a. refl);
  record_json = format stored_manifest as_record (λ a. refl);
  read_summary = λ b. summary (as_record b);
  read_summary-to_vec = λ r b h. rw (← eq_of_ok h) refl;
  peers_json = format peers as_peers (λ a. refl);
}
