-- ===== src/Store/Writes.antt =====
-- The entries of the database after the methods of `Store` that store a value.
use rust4eska.Prelude.{
  ◌≡◌, inl, inr, refl, ◌∙◌, Text, text_eq, nat_eq, Result-cases, ok, false, ◌&&◌, ◌==◌, eq_refl,
  arith,
}
use rust4eska.Backend.{Backend, Json}
use rust4eska.Store.{Store, put, put_as}
use rust4eska.Store.Entries.{HasEntry}
use rust4eska.Store.Sync.Replication.{put_outcome}

module _ (B : Backend) {A : Type 0} (json : Json B.Blob A) (tree key : Text) (a : A)
    (s : Store B) where
  open B use {db_get}

  put_as-puts :
      (put_as B json tree key a s).0 ≡ ok tt
      → (value : B.Blob) × (json.to_vec a ≡ ok value)
        × (put_as B json tree key a s ≡ put B tree key value s)
  put_as-puts h = elim (Result-cases (json.to_vec a)) [
    | inl (e, p) ↦ absurd (ground arith)
    | inr (value, p) ↦ (value, p, rw p refl)
  ]

  -- A value that was stored is there to be read.
  pub put_as-HasEntry :
      (put_as B json tree key a s).0 ≡ ok tt
      → HasEntry B json tree key (put_as B json tree key a s).1.db a
  put_as-HasEntry h =
      let (value, p, q) = put_as-puts h in
      let (found, sent) = put_outcome B tree key value s tree key (rw q at h) in
      rw q (record {
        blob = value;
        stored = ground (arith, found, eq_refl tree, eq_refl key);
        decodes = json.from_slice-to_vec a value p;
      })

  -- The entries of other keys stay.
  pub HasEntry-put_as :
      {C : Type 0} (json' : Json B.Blob C) (t k : Text) (c : C)
      → (tree == t && key == k) ≡ false
      → (put_as B json tree key a s).0 ≡ ok tt
      → HasEntry B json' t k s.db c
      → HasEntry B json' t k (put_as B json tree key a s).1.db c
  HasEntry-put_as json' t k c other h e =
      let (value, p, q) = put_as-puts h in
      let (found, sent) = put_outcome B tree key value s t k (rw q at h) in
      rw q (record { blob = e.blob; stored = found ∙ rw other e.stored; decodes = e.decodes })
