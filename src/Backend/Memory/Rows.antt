-- ===== src/Backend/Memory/Rows.antt =====
-- Entries in a list, for the examples: what the operations on them leave.
use rust4eska.Prelude.{
  ℕ, ◌≡◌, Text, text_eq, nat_eq, Option, none, some, List, [], ◌∷◌, Result, eq_of_ok, In-cons, sym,
  ok, err, Bool, true, false, ◌&&◌, ◌==◌, if◌then◌else◌, In, here, there, arith, list_beq_iff,
  Bool-cases, starts_with, inl, inr, ◌⊎◌,
}
use rust4eska.Models.{
  Token, Policy, Binding, Connection, PeerInfo, Manifest, VaultSecret, VaultConfig, KekDek, User,
  ManifestRecord, MetricPoint,
}

pub data Doc : Type 0 where
  plain : Text → Doc
  token : Token → Doc
  policy : Policy → Doc
  binding : Binding → Doc
  connection : Connection → Doc
  manifest : Manifest → Doc
  secret : VaultSecret → Doc
  vault_config : VaultConfig → Doc
  raw : List ℕ → Doc
  kek_dek : KekDek → Doc
  -- a key that has no `config_id` yet
  legacy : KekDek → Doc
  user : User → Doc
  stored_manifest : ManifestRecord → Doc
  peers : List (Text × PeerInfo ℕ) → Doc
  metric : MetricPoint ℕ → Doc

abbrev pub Table : Type 0
Table = List (Text × Text × Doc)

abbrev pub same : Text → Text → Text → Text → Bool
same t t' k k' = t == t' && k == k'

unfoldable pub lookup : Text → Text → Table → Option Doc
lookup t k [] = none
lookup t k ((t', k', v) ∷ db) = if same t' t k' k then some v else lookup t k db

unfoldable pub without : Text → Text → Table → Table
without t k [] = []
without t k ((t', k', v) ∷ db) =
    let rest = without t k db in if same t t' k k' then rest else (t', k', v) ∷ rest

abbrev shown : Bool → Text → Option Doc → List (Result (Text × Doc)) → List (Result (Text × Doc))
shown true k (some w) more = ok (k, w) ∷ more
shown _ _ _ more = more

-- The entries of a tree, each with the value that is found under its key.
unfoldable pub entries : Text → Table → Table → List (Result (Text × Doc))
unfolding lookup
entries t db [] = []
entries t db ((t', k, v) ∷ rest) = shown (t == t') k (lookup t k db) (entries t db rest)

lookup-without :
    (t k : Text) (db : Table) (t' k' : Text)
    → lookup t' k' (without t k db) ≡ (if same t t' k k' then none else lookup t' k' db)
unfolding lookup without
lookup-without t k [] t' k' = ground arith
lookup-without t k ((u, j, v) ∷ db) t' k' = ground (
  arith,
  lookup-without t k db t' k',
  list_beq_iff t u,
  list_beq_iff k j,
  list_beq_iff u t',
  list_beq_iff j k',
  list_beq_iff t t',
  list_beq_iff k k',
)

shown-In :
    (b : Bool) (j : Text) (o : Option Doc) (more : List (Result (Text × Doc))) (k : Text) (v : Doc)
    → In (ok (k, v)) (shown b j o more)
    → ((k ≡ j) × (o ≡ some v)) ⊎ In (ok (k, v)) more
shown-In true j (some w) more k v m = elim (In-cons m) [
  | inl e ↦ inl (cc (eq_of_ok e), cc (eq_of_ok e))
  | inr n ↦ inr n
]
shown-In true j none more k v m = inr m
shown-In false j o more k v m = inr m

In-shown_head :
    (b : Bool) (j : Text) (o : Option Doc) (more : List (Result (Text × Doc))) (v : Doc)
    → b ≡ true
    → o ≡ some v
    → In (ok (j, v)) (shown b j o more)
In-shown_head b j o more v e q = rw (e, q) here

In-shown_tail :
    (b : Bool) (j : Text) (o : Option Doc) (more : List (Result (Text × Doc)))
    (x : Result (Text × Doc))
    → In x more
    → In x (shown b j o more)
In-shown_tail true j (some w) more x m = there m
In-shown_tail true j none more x m = m
In-shown_tail false j o more x m = m

pub entries-lookup :
    (t k : Text) (v : Doc) (db rest : Table)
    → In (ok (k, v)) (entries t db rest)
    → lookup t k db ≡ some v
unfolding entries
entries-lookup t k v db [] m = elim m [ ]
entries-lookup t k v db ((u, j, w) ∷ rest) m =
    elim (shown-In (t == u) j (lookup t j db) (entries t db rest) k v m) [
      | inl (e, p) ↦ rw e p
      | inr n ↦ entries-lookup t k v db rest n
    ]

pub lookup-entries :
    (t k : Text) (v : Doc) (db rest : Table) (w : Doc)
    → lookup t k db ≡ some v
    → lookup t k rest ≡ some w
    → In (ok (k, v)) (entries t db rest)
unfolding entries lookup
lookup-entries t k v db [] w p q = cc
lookup-entries t k v db ((u, j, x) ∷ rest) w p q = elim (Bool-cases (same u t j k)) [
  | inl e ↦
      let eu : u ≡ t = (list_beq_iff u t).0 (ground arith) in
      let ej : j ≡ k = (list_beq_iff j k).0 (ground arith) in
      rw ej (
        In-shown_head (t == u) k (lookup t k db) (entries t db rest) v
          ((list_beq_iff t u).1 (sym eu)) p)
  | inr e ↦
      In-shown_tail (t == u) j (lookup t j db) (entries t db rest) (ok (k, v))
        (lookup-entries t k v db rest w p (rw e at q))
]

pub lookup-insert :
    (t k : Text) (v : Doc) (db : Table) (t' k' : Text)
    → ◌≡◌ {A = Result (Option Doc)}
        (ok (lookup t' k' ((t, k, v) ∷ without t k db)))
        (if same t t' k k' then ok (some v) else ok (lookup t' k' db))
unfolding lookup
lookup-insert t k v db t' k' = ground (arith, lookup-without t k db t' k')

pub lookup-remove :
    (t k : Text) (db : Table) (t' k' : Text)
    → ◌≡◌ {A = Result (Option Doc)}
        (ok (lookup t' k' (without t k db)))
        (if same t t' k k' then ok none else ok (lookup t' k' db))
lookup-remove t k db t' k' = ground (arith, lookup-without t k db t' k')

pub lookup-insert_ne :
    (t k : Text) (v : Doc) (db : Table) (t' k' : Text)
    → (t == t') ≡ false
    → ◌≡◌ {A = Result (Option Doc)}
        (ok (lookup t' k' ((t, k, v) ∷ without t k db)))
        (ok (lookup t' k' db))
lookup-insert_ne t k v db t' k' h = ground (arith, lookup-insert t k v db t' k')

pub lookup-remove_ne :
    (t k : Text) (db : Table) (t' k' : Text)
    → (t == t') ≡ false
    → ◌≡◌ {A = Result (Option Doc)} (ok (lookup t' k' (without t k db))) (ok (lookup t' k' db))
lookup-remove_ne t k db t' k' h = ground (arith, lookup-remove t k db t' k')

-- the entries of a tree whose keys start with a prefix
unfoldable pub scanned : Text → List (Result (Text × Doc)) → List (Result (Text × Doc))
scanned p [] = []
scanned p (err e ∷ items) = err e ∷ scanned p items
scanned p (ok (k, v) ∷ items) =
    let more = scanned p items in if starts_with k p then ok (k, v) ∷ more else more

pub scanned-In :
    (p k : Text) (v : Doc) (items : List (Result (Text × Doc)))
    → In (ok (k, v)) (scanned p items)
    → In (ok (k, v)) items × (starts_with k p ≡ true)
unfolding scanned
scanned-In p k v [] m = elim m [ ]
scanned-In p k v (err e ∷ items) m = elim (In-cons m) [
  | inl q ↦ absurd (cc q)
  | inr n ↦ let (i, h) = scanned-In p k v items n in (there i, h)
]
scanned-In p k v (ok (j, w) ∷ items) m = elim (Bool-cases (starts_with j p)) [
  | inl h ↦ elim (In-cons (rw (h, scanned) at m)) [
    | inl q ↦ let same : k ≡ j = cc (eq_of_ok q) in (rw q here, rw same h)
    | inr n ↦ let (i, g) = scanned-In p k v items n in (there i, g)
  ]
  | inr h ↦ let (i, g) = scanned-In p k v items (rw (h, scanned) at m) in (there i, g)
]

pub In-scanned :
    (p k : Text) (v : Doc) (items : List (Result (Text × Doc)))
    → In (ok (k, v)) items
    → starts_with k p ≡ true
    → In (ok (k, v)) (scanned p items)
unfolding scanned
In-scanned p k v [] m h = elim m [ ]
In-scanned p k v (err e ∷ items) m h = elim (In-cons m) [
  | inl q ↦ absurd (cc q)
  | inr n ↦ there (In-scanned p k v items n h)
]
In-scanned p k v (ok (j, w) ∷ items) m h = elim (In-cons m) [
  | inl q ↦ head q
  | inr n ↦ later (In-scanned p k v items n h)
]
  where
    head :
        ◌≡◌ {A = Result (Text × Doc)} (ok (k, v)) (ok (j, w))
        → In (ok (k, v)) (scanned p (ok (j, w) ∷ items))
    head q =
        let same : j ≡ k = cc (eq_of_ok q) in
        let g : starts_with j p ≡ true = rw same h in rw (g, scanned) (rw q here)

    later : In (ok (k, v)) (scanned p items) → In (ok (k, v)) (scanned p (ok (j, w) ∷ items))
    later n = elim (Bool-cases (starts_with j p)) [
      | inl g ↦ rw (g, scanned) (there n)
      | inr g ↦ rw (g, scanned) n
    ]
