-- ===== src/Images/Pulls.antt =====
-- Manifests that are put into the image registry, crates/r4a-git-registry/src/registry.rs, come back.
use rust4eska.Prelude.{
  ℕ, ◌≡◌, ◌⊎◌, subst, inl, inr, refl, sym, ◌∙◌, Text, text, text_eq, nat_eq, list_beq_iff, Option,
  some, none, length, arith, ◌++◌, ok, Exec, true, false, eq_of_ok, starts_with, ◌==◌,
}
use rust4eska.Models.{ManifestRecord}
use rust4eska.Actions.{◌>>=◌, lift}
use rust4eska.Actions.Yielding.{Yields, Yields-reads, Yields-lift, Yields-bind}
use rust4eska.Backend.{Backend}
use rust4eska.Crypto.{Crypto}
use rust4eska.Files.{Disk}
use rust4eska.Images.{RegistryState, Response, built, ok_200, on_meta, tag_key, manifest_key}
use rust4eska.Images.Blobs.{Body}
use rust4eska.Images.Keys.{tag_key-manifest_key}
use rust4eska.Images.Manifests.{
  meta_tree, collect, save_manifest, digest_of, resolve_manifest, manifest_answer, put_answer,
  put_manifest, get_manifest, record_of, media_type_of,
}

module _ (B : Backend) where
  get_inserted :
      (t k : Text) (v : B.Blob) (db : B.Db)
      → (B.db_insert t k v db).0 ≡ ok tt
      → B.db_get t k (B.db_insert t k v db).1 ≡ ok (some v)
  get_inserted t k v db e =
      let same_tree : (t == t) ≡ true = (list_beq_iff t t).1 refl in
      let same_key : (k == k) ≡ true = (list_beq_iff k k).1 refl in
      B.get-insert t k v db t k e ∙ rw (same_tree, same_key) refl

  get_elsewhere :
      (t k k' : Text) (v : B.Blob) (db : B.Db)
      → (B.db_insert t k v db).0 ≡ ok tt
      → (k == k') ≡ false
      → B.db_get t k' (B.db_insert t k v db).1 ≡ B.db_get t k' db
  get_elsewhere t k k' v db e other =
      let same_tree : (t == t) ≡ true = (list_beq_iff t t).1 refl in
      B.get-insert t k v db t k' e ∙ rw (same_tree, other) refl

  -- what the tree holds when a manifest is saved
  record Saved (r : ManifestRecord) (reference : Text) (db : B.Db) : Type 0 where
    value : B.Blob
    is_value : B.record_json.to_vec r ≡ ok value
    at_digest : B.db_get meta_tree (manifest_key r.repo r.digest) db ≡ ok (some value)
    at_tag : B.db_get meta_tree (tag_key r.repo reference) db ≡ ok (some (B.of_text r.digest))

  save_manifest-Yields :
      (r : ManifestRecord) (reference : Text)
      → Yields (λ db. Unit {0}) (save_manifest B r reference) (λ u db. Saved r reference db)
  unfolding save_manifest
  save_manifest-Yields r reference =
      Yields-bind (λ u db. Unit {0}) (Yields-reads _ λ db u e p. tt)
        λ u.
          Yields-bind (λ value db. B.record_json.to_vec r ≡ ok value)
            (Yields-lift _ λ db value e p. e)
            λ value.
              Yields-bind
                (λ u db.
                  (B.record_json.to_vec r ≡ ok value)
                  × (B.db_get meta_tree (manifest_key r.repo r.digest) db ≡ ok (some value)))
                (record {
                  yields = λ db u e p.
                      (p, get_inserted meta_tree (manifest_key r.repo r.digest) value db e);
                })
                λ u.
                  Yields-bind (λ u db. Saved r reference db)
                    (record {
                      yields = λ db u e p. record {
                        value = value;
                        is_value = p.0;
                        at_digest =
                            get_elsewhere meta_tree (tag_key r.repo reference)
                              (manifest_key r.repo r.digest) (B.of_text r.digest) db e
                              (tag_key-manifest_key r.repo reference r.digest)
                            ∙ p.1;
                        at_tag =
                            get_inserted meta_tree (tag_key r.repo reference) (B.of_text r.digest)
                              db e;
                      };
                    })
                    λ u. record {
                      yields = λ db u e saved. record {
                        value = saved.value;
                        is_value = saved.is_value;
                        at_digest =
                            B.get-flush meta_tree (manifest_key r.repo r.digest) db
                            ∙ saved.at_digest;
                        at_tag = B.get-flush meta_tree (tag_key r.repo reference) db ∙ saved.at_tag;
                      };
                    }

  -- a reference that names what was put
  abbrev Names : Text → Text → Text → Type 0
  Names asked digest reference =
      ((asked ≡ digest) × (starts_with digest (text "sha256:") ≡ true))
      ⊎ ((asked ≡ reference) × (starts_with reference (text "sha256:") ≡ false))

  digest_of-Saved :
      (r : ManifestRecord) (reference asked : Text) (db : B.Db)
      → Saved r reference db
      → Names asked r.digest reference
      → digest_of B r.repo asked db ≡ ok r.digest
  digest_of-Saved r reference asked db saved (inl (same, is_digest)) = rw (same, is_digest) refl
  digest_of-Saved r reference asked db saved (inr (same, is_tag)) =
      rw (same, is_tag, saved.at_tag) (B.read_text-of_text r.digest)

  resolve_manifest-Saved :
      (r : ManifestRecord) (reference asked : Text) (db : B.Db)
      → Saved r reference db
      → Names asked r.digest reference
      → resolve_manifest B r.repo asked db ≡ ok r
  unfolding resolve_manifest
  resolve_manifest-Saved r reference asked db saved named =
      rw
        (
          B.open_of_get meta_tree (manifest_key r.repo r.digest) db (some saved.value)
              saved.at_digest,
          digest_of-Saved r reference asked db saved named,
          saved.at_digest,
        )
        (B.record_json.from_slice-to_vec r saved.value saved.is_value)

-- If the answer to a put can be built, then so can that to a get, whose content type is valid.
built_both :
    (B : Backend) (r : ManifestRecord) (reference : Text) (answer : Response)
    → built B (put_answer r reference) ≡ ok answer
    → B.is_header_value r.media_type ≡ true
    → built B (manifest_answer B r) ≡ ok (manifest_answer B r)
unfolding built
built_both B r reference answer h typed = ground arith

module _ {B : Backend} {D : Disk} where
  on_meta-Yields :
      {A : Type 0} {P : B.Db → Type 0} {m : Exec B.Db A} {Q : A → B.Db → Type 0}
      → Yields P m Q
      → Yields (λ (s : RegistryState B D). P s.store.db) (on_meta m) (λ a s. Q a s.store.db)
  unfolding on_meta
  on_meta-Yields k = record { yields = λ s a e p. k.yields s.store.db a e p }

  get_manifest-found :
      (repo asked : Text) (r : ManifestRecord) (s : RegistryState B D)
      → resolve_manifest B repo asked s.store.db ≡ ok r
      → built B (manifest_answer B r) ≡ ok (manifest_answer B r)
      → get_manifest repo asked s ≡ (ok (manifest_answer B r), s)
  unfolding get_manifest on_meta ◌>>=◌ lift
  get_manifest-found repo asked r s e valid = rw e (rw valid refl)

  put_manifest-Yields :
      (C : Crypto) (now : ℕ) (repo reference : Text) (content_type : Option Text) (body : Body)
      (content : Text)
      → collect body ≡ ok content
      → Yields
          (λ (s : RegistryState B D). Unit {0})
          (put_manifest C now repo reference content_type body)
          (λ r s.
            Saved B (record_of C now repo content_type content) reference s.store.db
            × (built B (put_answer (record_of C now repo content_type content) reference) ≡ ok r))
  unfolding put_manifest
  put_manifest-Yields C now repo reference content_type body content e =
      Yields-bind (λ found s. found ≡ content) (Yields-lift _ λ s found h p. eq_of_ok (sym h ∙ e))
        λ found.
          Yields-bind
            (λ u s.
              Saved B (record_of C now repo content_type content) reference s.store.db
              × (found ≡ content))
            (on_meta-Yields
              {Q = λ u db.
                Saved B (record_of C now repo content_type content) reference db
                × (found ≡ content)}
              (record {
                yields = λ db u h same. (
                  subst
                      (λ (x : Text).
                        Saved B (record_of C now repo content_type x) reference
                          (save_manifest B (record_of C now repo content_type found) reference
                            db).1)
                      same
                      ((save_manifest-Yields B (record_of C now repo content_type found)
                          reference).yields
                        db u h tt),
                  same,
                );
              }))
            λ u. Yields-lift _ λ s r h saved. (
              saved.0,
              subst
                  (λ (x : Text).
                    built B (put_answer (record_of C now repo content_type x) reference) ≡ ok r)
                  saved.1 h,
            )

  -- A manifest that was put comes back, by its digest as by the tag that it was put under: if a
  -- `put_manifest` succeeds, with a content type that is valid in a header, then a `get_manifest` of
  -- the repository right after it, with the digest of the body or with the reference of the put, where
  -- that is no digest, succeeds, changes nothing, and answers 200 with the bytes, the length and the
  -- digest of what was put, and with the content type given, or where none was given with that of an
  -- OCI image manifest.
  pub get_manifest-put_manifest :
      (C : Crypto) (now : ℕ) (repo reference : Text) (content_type : Option Text) (body : Body)
      (content asked : Text) (answer : Response) (s : RegistryState B D)
      → collect body ≡ ok content
      → (asked ≡ text "sha256:" ++ C.sha256 content)
        ⊎ ((asked ≡ reference) × (starts_with reference (text "sha256:") ≡ false))
      → (put_manifest C now repo reference content_type body s).0 ≡ ok answer
      → B.is_header_value (media_type_of content_type) ≡ true
      → let after = (put_manifest C now repo reference content_type body s).1 in
        (response : Response) × (get_manifest repo asked after ≡ (ok response, after))
        × (response.status ≡ ok_200)
        × (response.body ≡ content)
        × (response.content_length ≡ some (length content))
        × (response.content_digest ≡ some (text "sha256:" ++ C.sha256 content))
        × (((media_type : Text) × (content_type ≡ some media_type)
              × (response.content_type ≡ some media_type))
            ⊎ ((content_type ≡ none)
                × (response.content_type
                    ≡ some (text "application/vnd.oci.image.manifest.v1+json"))))
  get_manifest-put_manifest C now repo reference content_type body content asked answer s e named h
        typable =
      let r : ManifestRecord = record_of C now repo content_type content in
      let after : RegistryState B D = (put_manifest C now repo reference content_type body s).1 in
      let (saved, is_built) =
        (put_manifest-Yields C now repo reference content_type body content e).yields s answer h
          tt in
      let found =
        get_manifest-found repo asked r after
          (resolve_manifest-Saved B r reference asked after.store.db saved
            (elim named [ inl is_digest ↦ inl (is_digest, refl) | inr is_tag ↦ inr is_tag ]))
          (built_both B r reference answer is_built typable) in
      (manifest_answer B r, found, refl, refl, refl, refl, typed content_type)
    where
      typed :
          (given : Option Text)
          → ((media_type : Text) × (given ≡ some media_type)
              × (some (media_type_of given) ≡ some media_type))
            ⊎ ((given ≡ none)
                × (some (media_type_of given)
                    ≡ some (text "application/vnd.oci.image.manifest.v1+json")))
      typed (some t) = inl (t, refl, refl)
      typed none = inr (refl, refl)
