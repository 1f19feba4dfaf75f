-- ===== src/Server/Registry/Untagging.antt =====
-- What the deletion of a tag, binaries/r4a-server/src/main.rs, leaves for who pulls from the image
-- registry, crates/r4a-git-registry/src/registry.rs.
use rust4eska.Prelude.{
  ◌≡◌, ◌≢◌, ◌⊎◌, refl, ap, ◌∙◌, inl, inr, Text, text, text_eq, nat_eq, none, some, List, Result,
  Result-cases, ok, Bool-cases, true, false, arith, ◌==◌, any, all, In, In-any, list_beq_iff,
  eq_refl, starts_with,
}
use rust4eska.Models.{ManifestRecord}
use rust4eska.Backend.{Backend, is_ok}
use rust4eska.Images.{tag_key, tag_prefix, manifest_key}
use rust4eska.Images.Keys.{
  tag_key-manifest_key, manifest_key-tag_key, tag_key-tag_key, manifest_key-manifest_key,
  starts_with-tag_key,
}
use rust4eska.Images.Manifests.{meta_tree, holds, resolve_manifest}
use rust4eska.Server.{AppState}
use rust4eska.Server.Registry.Tags.{refers, drop_unreferenced, delete_tag}
use rust4eska.Server.Reply.{done}

module _ (B : Backend) where
  open B use {Blob, Db, db_get, db_remove, db_scan, db_flush, db_open, read_text}

  -- a tag of a repository with the manifest that it leads to
  pub record Pullable (repo tag : Text) (r : ManifestRecord) (db : Db) : Type 0 where
    pub value : Blob
    pub digest : Text
    pub manifest : Blob
    pub at_tag : db_get meta_tree (tag_key repo tag) db ≡ ok (some value)
    pub is_digest : read_text value ≡ ok digest
    pub at_digest : db_get meta_tree (manifest_key repo digest) db ≡ ok (some manifest)
    pub decodes : B.record_json.from_slice manifest ≡ ok r

  pub resolve_manifest-Pullable :
      (repo tag : Text) (r : ManifestRecord) (db : Db)
      → starts_with tag (text "sha256:") ≡ false
      → Pullable repo tag r db
      → resolve_manifest B repo tag db ≡ ok r
  unfolding resolve_manifest
  resolve_manifest-Pullable repo tag r db is_tag l =
      rw
        (
          B.open_of_get meta_tree (tag_key repo tag) db (some l.value) l.at_tag,
          is_tag,
          l.at_tag,
          l.is_digest,
          l.at_digest,
        )
        l.decodes

  pub Pullable-resolve_manifest :
      (repo tag : Text) (r : ManifestRecord) (db : Db)
      → starts_with tag (text "sha256:") ≡ false
      → resolve_manifest B repo tag db ≡ ok r
      → Pullable repo tag r db
  unfolding resolve_manifest
  Pullable-resolve_manifest repo tag r db is_tag h = elim (Result-cases (db_open meta_tree db)) [
    | inl (e, o) ↦ absurd (ground (arith, h, o))
    | inr (u, o) ↦ elim (Result-cases (db_get meta_tree (tag_key repo tag) db)) [
      | inl (e, p) ↦ absurd (ground (arith, h, o, is_tag, p))
      | inr (none, p) ↦ absurd (ground (arith, h, o, is_tag, p))
      | inr (some value, p) ↦ elim (Result-cases (read_text value)) [
        | inl (e, q) ↦ absurd (ground (arith, h, o, is_tag, p, q))
        | inr (digest, q) ↦ elim (Result-cases (db_get meta_tree (manifest_key repo digest) db)) [
          | inl (e, g) ↦ absurd (ground (arith, h, o, is_tag, p, q, g))
          | inr (none, g) ↦ absurd (ground (arith, h, o, is_tag, p, q, g))
          | inr (some manifest, g) ↦ record {
            value = value;
            digest = digest;
            manifest = manifest;
            at_tag = p;
            is_digest = q;
            at_digest = g;
            decodes = ground (arith, h, o, is_tag, p, q, g);
          }
        ]
      ]
    ]
  ]

  get_removed_ne :
      (k k' : Text) (db : Db)
      → (db_remove meta_tree k db).0 ≡ ok tt
      → (k == k') ≡ false
      → db_get meta_tree k' (db_remove meta_tree k db).1 ≡ db_get meta_tree k' db
  get_removed_ne k k' db e other = B.get-remove meta_tree k db meta_tree k' e ∙ rw other refl

  get_removed :
      (k : Text) (db : Db)
      → (db_remove meta_tree k db).0 ≡ ok tt
      → db_get meta_tree k (db_remove meta_tree k db).1 ≡ ok none
  get_removed k db e = B.get-remove meta_tree k db meta_tree k e ∙ rw (eq_refl k) refl

  -- an entry that is not the manifest, or a manifest that is referred to, stays
  get-drop_unreferenced :
      (repo digest k : Text) (items : List (Result (Text × Blob))) (db : Db)
      → (drop_unreferenced B repo digest items db).0 ≡ ok tt
      → (any (refers B digest) items ≡ true) ⊎ ((manifest_key repo digest == k) ≡ false)
      → db_get meta_tree k (drop_unreferenced B repo digest items db).1 ≡ db_get meta_tree k db
  unfolding drop_unreferenced
  get-drop_unreferenced repo digest k items db e kept =
      elim (Bool-cases (any (refers B digest) items)) [
        | inl q ↦ rw q refl
        | inr q ↦ elim kept [
          | inl p ↦ absurd (ground (arith, p, q))
          | inr p ↦ rw q (get_removed_ne (manifest_key repo digest) k db (rw q at e) p)
        ]
      ]

  -- the database after the writes of a deletion that succeeds
  pub record Untagged (repo tag digest : Text) (db after : Db) : Type 0 where
    pub items : List (Result (Text × Blob))
    pub removed : (db_remove meta_tree (tag_key repo tag) db).0 ≡ ok tt
    pub scanned :
        db_scan meta_tree (tag_prefix repo) (db_remove meta_tree (tag_key repo tag) db).1 ≡ ok items
    pub dropped :
        (drop_unreferenced B repo digest items (db_remove meta_tree (tag_key repo tag) db).1).0
        ≡ ok tt
    pub is_after :
        after
        ≡ (db_flush
            (drop_unreferenced B repo digest items
              (db_remove meta_tree (tag_key repo tag) db).1).1).1

  pub delete_tag-Untagged :
      (repo tag digest : Text) (state : AppState B)
      → (delete_tag B repo tag digest state).0 ≡ done tt
      → Untagged repo tag digest state.store.db (delete_tag B repo tag digest state).1.store.db
  unfolding delete_tag
  delete_tag-Untagged repo tag digest state h =
      let first = db_remove meta_tree (tag_key repo tag) state.store.db in
      elim (Result-cases first.0) [
        | inl (e, p) ↦ absurd (ground (arith, h, p))
        | inr (u, p) ↦ elim (Result-cases (db_scan meta_tree (tag_prefix repo) first.1)) [
          | inl (e, q) ↦ absurd (ground (arith, h, p, q))
          | inr (items, q) ↦
              let second = drop_unreferenced B repo digest items first.1 in
              elim (Result-cases second.0) [
                | inl (e, r) ↦ absurd (ground (arith, h, p, q, r))
                | inr (v, r) ↦ record {
                  items = items;
                  removed = p;
                  scanned = q;
                  dropped = r;
                  is_after = ground (arith, p, q, r);
                }
              ]
        ]
      ]

  module _ (repo tag digest : Text) (db after : Db) (u : Untagged repo tag digest db after) where
    -- an entry that neither write takes away
    get-Untagged :
        (k : Text)
        → (tag_key repo tag == k) ≡ false
        → (any (refers B digest) u.items ≡ true) ⊎ ((manifest_key repo digest == k) ≡ false)
        → db_get meta_tree k after ≡ db_get meta_tree k db
    get-Untagged k other kept =
        let first = (db_remove meta_tree (tag_key repo tag) db).1 in
        let second = (drop_unreferenced B repo digest u.items first).1 in
        ap (λ (d : Db). db_get meta_tree k d) u.is_after
        ∙ B.get-flush meta_tree k second
        ∙ get-drop_unreferenced repo digest k u.items first u.dropped kept
        ∙ get_removed_ne (tag_key repo tag) k db u.removed other

    pub no_tag : db_get meta_tree (tag_key repo tag) after ≡ ok none
    no_tag =
        let first = (db_remove meta_tree (tag_key repo tag) db).1 in
        let second = (drop_unreferenced B repo digest u.items first).1 in
        ap (λ (d : Db). db_get meta_tree (tag_key repo tag) d) u.is_after
        ∙ B.get-flush meta_tree (tag_key repo tag) second
        ∙ get-drop_unreferenced repo digest (tag_key repo tag) u.items first u.dropped
            (inr (manifest_key-tag_key repo tag digest))
        ∙ get_removed (tag_key repo tag) db u.removed

    pub Pullable-Untagged :
        (other : Text) (r : ManifestRecord)
        → tag ≢ other
        → all is_ok u.items ≡ true
        → Pullable repo other r db
        → Pullable repo other r after
    Pullable-Untagged other r differs readable l =
        let held : (l.digest == digest) ≡ true → holds B l.value digest ≡ true =
          λ q. ground (arith, l.is_digest, q) in
        let first = (db_remove meta_tree (tag_key repo tag) db).1 in
        let not_same : (tag_key repo tag == tag_key repo other) ≡ false =
          ground (arith, tag_key-tag_key repo tag other, list_beq_iff tag other) in
        let listed : In (ok (tag_key repo other, l.value)) u.items =
          B.scan_of_get meta_tree (tag_prefix repo) (tag_key repo other) l.value first u.items
            u.scanned readable
            (get_removed_ne (tag_key repo tag) (tag_key repo other) db u.removed not_same
              ∙ l.at_tag)
            (starts_with-tag_key repo other) in
        record {
          value = l.value;
          digest = l.digest;
          manifest = l.manifest;
          at_tag =
              get-Untagged (tag_key repo other) not_same
                (inr (manifest_key-tag_key repo other digest))
              ∙ l.at_tag;
          is_digest = l.is_digest;
          at_digest =
              get-Untagged (manifest_key repo l.digest) (tag_key-manifest_key repo tag l.digest)
                (elim (Bool-cases (l.digest == digest)) [
                  | inl q ↦ inl (
                      In-any (refers B digest) u.items (ok (tag_key repo other, l.value)) listed
                        (held q))
                  | inr q ↦ inr (
                      ground (
                        arith,
                        manifest_key-manifest_key repo digest l.digest,
                        q,
                        list_beq_iff digest l.digest,
                        list_beq_iff l.digest digest,
                      ))
                ])
              ∙ l.at_digest;
          decodes = l.decodes;
        }
