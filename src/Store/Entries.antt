-- ===== src/Store/Entries.antt =====
-- The entries of the database, as the methods of `Store` read them one by one and in a loop.
use rust4eska.Prelude.{
  ◌≡◌, refl, ◌⊎◌, inl, inr, Text, text_eq, Option, none, some, List, [], ◌∷◌, Result, Result-cases,
  eq_of_ok, err≢ok, ok, err, In, here, there, arith, true, all, bind,
}
use rust4eska.Backend.{Backend, Json, is_ok}
use rust4eska.Store.{Store, keep, decoded, decode_found, list_as, get, get_as}

module _ {A : Type 0} where
  In-keep : (r : Result A) (xs : List A) (a : A) → In a (keep r xs) → (r ≡ ok a) ⊎ In a xs
  In-keep (ok a) xs b here = inl refl
  In-keep (ok a) xs b (there m) = inr m
  In-keep (err e) xs b m = inr m

  keep-In_head : {r : Result A} (xs : List A) {a : A} → r ≡ ok a → In a (keep r xs)
  keep-In_head xs q = rw q here

  keep-In_tail : (r : Result A) (xs : List A) {a : A} → In a xs → In a (keep r xs)
  keep-In_tail (ok b) xs m = there m
  keep-In_tail (err e) xs m = m

module _ (B : Backend) where
  open B use {Db, Blob, db_get, db_iter}

  -- an entry of a tree that can be decoded
  pub record HasEntry {A : Type 0} (json : Json Blob A) (tree key : Text) (db : Db) (a : A)
      : Type 0 where
    pub blob : Blob
    pub stored : db_get tree key db ≡ ok (some blob)
    pub decodes : json.from_slice blob ≡ ok a

  decoded-In :
      {A : Type 0} (json : Json Blob A) (items : List (Result (Text × Blob))) (a : A)
      → In a (decoded B json items)
      → (k : Text) × (v : Blob) × In (ok (k, v)) items × (json.from_slice v ≡ ok a)
  decoded-In json [] a m = elim m [ ]
  decoded-In json (err e ∷ items) a m =
      let (k, v, n, q) = decoded-In json items a m in (k, v, there n, q)
  decoded-In json (ok (k, v) ∷ items) a m =
      elim (In-keep (json.from_slice v) (decoded B json items) a m) [
        | inl q ↦ (k, v, here, q)
        | inr n ↦ let (k', v', n', q) = decoded-In json items a n in (k', v', there n', q)
      ]

  In-decoded :
      {A : Type 0} (json : Json Blob A) (k : Text) (v : Blob) (a : A)
      (items : List (Result (Text × Blob)))
      → In (ok (k, v)) items
      → json.from_slice v ≡ ok a
      → In a (decoded B json items)
  In-decoded json k v a [] m q = elim m [ ]
  In-decoded json k v a (x ∷ items) here q = keep-In_head (decoded B json items) q
  In-decoded json k v a (err e ∷ items) (there m) q = In-decoded json k v a items m q
  In-decoded json k v a (ok (k', v') ∷ items) (there m) q =
      keep-In_tail (json.from_slice v') (decoded B json items) (In-decoded json k v a items m q)

  -- Every value that a loop over a tree meets is stored in it.
  pub list_as-HasEntry :
      {A : Type 0} (json : Json Blob A) (tree : Text) (s : Store B) (as' : List A) (a : A)
      → list_as B json tree s ≡ ok as'
      → In a as'
      → (key : Text) × HasEntry json tree key s.db a
  list_as-HasEntry json tree s as' a h m = elim (Result-cases (db_iter tree s.db)) [
    | inl (e, p) ↦ absurd (err≢ok (rw p at h))
    | inr (items, p) ↦
        let (k, v, n, q) = decoded-In json items a (rw (← eq_of_ok (rw p at h)) at m) in
        (k, record { blob = v; stored = B.get_of_iter tree k v s.db items p n; decodes = q })
  ]

  -- A loop over a tree that can be read without an error meets every value that is stored in it.
  pub HasEntry-list_as :
      {A : Type 0} (json : Json Blob A) (tree key : Text) (s : Store B) (a : A)
      (items : List (Result (Text × Blob)))
      → db_iter tree s.db ≡ ok items
      → all is_ok items ≡ true
      → HasEntry json tree key s.db a
      → In a (decoded B json items)
  HasEntry-list_as json tree key s a items h readable e =
      In-decoded json key e.blob a items
        (B.iter_of_get tree key e.blob s.db items h readable e.stored) e.decodes

  found_blob :
      {A : Type 0} (json : Json Blob A) (r : Result (Option Blob)) (a : A)
      → bind r (decode_found B json) ≡ ok (some a)
      → (v : Blob) × (r ≡ ok (some v)) × (json.from_slice v ≡ ok a)
  found_blob json (err e) a h = cc
  found_blob json (ok none) a h = cc
  found_blob json (ok (some v)) a h = (v, refl, ground arith)

  -- `get` and `from_slice` succeed at an entry, and nowhere else.
  pub get_as-HasEntry :
      {A : Type 0} (json : Json Blob A) (tree key : Text) (s : Store B) (a : A)
      → get_as B json tree key s ≡ ok (some a)
      → HasEntry json tree key s.db a
  unfolding get
  get_as-HasEntry json tree key s a h =
      let (v, p, q) = found_blob json (db_get tree key s.db) a h in
      record { blob = v; stored = p; decodes = q }

  pub HasEntry-get_as :
      {A : Type 0} (json : Json Blob A) (tree key : Text) (s : Store B) (a : A)
      → HasEntry json tree key s.db a
      → get_as B json tree key s ≡ ok (some a)
  unfolding get
  HasEntry-get_as json tree key s a e = rw e.stored (rw e.decodes)
