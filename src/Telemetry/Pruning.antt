-- ===== src/Telemetry/Pruning.antt =====
-- What `prune_metrics` of crates/r4a-telemetry/src/store.rs leaves.
use rust4eska.Prelude.{
  ℕ, ◌+◌, ◌-◌, ◌*◌, ◌<◌, ◌≤◌, ◌⊎◌, ◌≡◌, refl, ap, subst, sym, ◌∙◌, inl, inr, Text, text_eq, nat_eq,
  Option, none, some, eq_of_some, List, [], ◌∷◌, Result, Result-cases, ok, err, Error, err≢ok,
  eq_of_ok, Bool, Bool-cases, true, false, arith, ◌&&◌, ◌==◌, any, all, In, In-any, any-In,
  list_beq_iff, if◌then◌else◌, eq_refl, ltb,
}
use rust4eska.Models.{MetricPoint}
use rust4eska.Backend.{Backend, is_ok}
use rust4eska.Telemetry.{LogStore, metrics_tree, is_old, prune, prune_metrics, cutoff, flush_if}

module _ (B : Backend) where
  open B use {Blob, Db, db_get, db_remove, db_iter, db_flush}

  -- whether an entry of the iterator is under a key and to be removed
  abbrev goes : ℕ → Text → Result (Text × Blob) → Bool
  goes cutoff_ms k (err e) = false
  goes cutoff_ms k (ok (key, value)) = key == k && is_old B cutoff_ms value

  module _ (cutoff_ms : ℕ) (key : Text) (value : Blob) (items : List (Result (Text × Blob)))
      (removed : ℕ) (db : Db) where
    prune-young :
        is_old B cutoff_ms value ≡ false
        → prune B cutoff_ms (ok (key, value) ∷ items) removed db
          ≡ prune B cutoff_ms items removed db
    unfolding prune
    prune-young q = rw q refl

    -- an old entry is removed, if the loop is to succeed
    prune-old :
        (n : ℕ)
        → is_old B cutoff_ms value ≡ true
        → (prune B cutoff_ms (ok (key, value) ∷ items) removed db).0 ≡ ok n
        → ((db_remove metrics_tree key db).0 ≡ ok tt)
          × (prune B cutoff_ms (ok (key, value) ∷ items) removed db
              ≡ prune B cutoff_ms items (removed + 1) (db_remove metrics_tree key db).1)
    unfolding prune
    prune-old n q h = elim (Result-cases (db_remove metrics_tree key db).0) [
      | inl (e, p) ↦ absurd (ground (arith, h, q, p))
      | inr (u, p) ↦ (p, rw (q, p) refl)
    ]

  result_of : {n : ℕ} {a b : Result ℕ × Db} → a ≡ b → a.0 ≡ ok n → b.0 ≡ ok n
  result_of e h = ap (λ (r : Result ℕ × Db). r.0) (sym e) ∙ h

  broken :
      (cutoff_ms : ℕ) (e : Error) (items : List (Result (Text × Blob))) (removed n : ℕ) (db : Db)
      → (prune B cutoff_ms (err e ∷ items) removed db).0 ≡ ok n
      → ⊥
  unfolding prune
  broken cutoff_ms e items removed n db h = err≢ok h

  -- the loop reads every entry and removes the old ones
  prune-all_ok :
      (cutoff_ms : ℕ) (items : List (Result (Text × Blob))) (removed n : ℕ) (db : Db)
      → (prune B cutoff_ms items removed db).0 ≡ ok n
      → all is_ok items ≡ true
  prune-all_ok cutoff_ms [] removed n db h = refl
  prune-all_ok cutoff_ms (err e ∷ items) removed n db h =
      absurd (broken cutoff_ms e items removed n db h)
  prune-all_ok cutoff_ms (ok (key, value) ∷ items) removed n db h =
      elim (Bool-cases (is_old B cutoff_ms value)) [
        | inr q ↦
            prune-all_ok cutoff_ms items removed n db
              (result_of (prune-young cutoff_ms key value items removed db q) h)
        | inl q ↦
            let (p, same) = prune-old cutoff_ms key value items removed db n q h in
            prune-all_ok cutoff_ms items (removed + 1) n (db_remove metrics_tree key db).1
              (result_of same h)
      ]

  get-prune :
      (cutoff_ms : ℕ) (items : List (Result (Text × Blob))) (removed n : ℕ) (db : Db) (k : Text)
      → (prune B cutoff_ms items removed db).0 ≡ ok n
      → db_get metrics_tree k (prune B cutoff_ms items removed db).1
        ≡ (if any (goes cutoff_ms k) items then ok none else db_get metrics_tree k db)
  get-prune cutoff_ms [] removed n db k h = unfold prune in refl
  get-prune cutoff_ms (err e ∷ items) removed n db k h =
      absurd (broken cutoff_ms e items removed n db h)
  get-prune cutoff_ms (ok (key, value) ∷ items) removed n db k h =
      elim (Bool-cases (is_old B cutoff_ms value)) [
        | inr q ↦
            let same = prune-young cutoff_ms key value items removed db q in
            let later = get-prune cutoff_ms items removed n db k (result_of same h) in
            ap (λ (r : Result ℕ × Db). db_get metrics_tree k r.1) same ∙ later ∙ ground (arith, q)
        | inl q ↦
            let (p, same) = prune-old cutoff_ms key value items removed db n q h in
            let after = (db_remove metrics_tree key db).1 in
            let later = get-prune cutoff_ms items (removed + 1) n after k (result_of same h) in
            ap (λ (r : Result ℕ × Db). db_get metrics_tree k r.1) same
            ∙ later
            ∙ ground (arith, q, B.get-remove metrics_tree key db metrics_tree k p)
      ]

  -- what pruning leaves of an entry
  abbrev pub left : ℕ → Option Blob → Option Blob
  left cutoff_ms none = none
  left cutoff_ms (some value) = if is_old B cutoff_ms value then none else some value

  -- an entry of the iterator that goes under a key is the one that is stored there
  old_of_goes :
      (cutoff_ms : ℕ) (items : List (Result (Text × Blob))) (db : Db) (k : Text) (value : Blob)
      (item : Result (Text × Blob))
      → db_iter metrics_tree db ≡ ok items
      → db_get metrics_tree k db ≡ ok (some value)
      → In item items
      → goes cutoff_ms k item ≡ true
      → is_old B cutoff_ms value ≡ true
  old_of_goes cutoff_ms items db k value (err e) iterated g i r = absurd (ground arith)
  old_of_goes cutoff_ms items db k value (ok (key, value')) iterated g i r =
      let there = B.get_of_iter metrics_tree key value' db items iterated i in
      let both : (key == k ≡ true) × (is_old B cutoff_ms value' ≡ true) = ground (arith, r) in
      let same : key ≡ k = (list_beq_iff key k).0 both.0 in
      let stored : value' ≡ value =
        eq_of_some (eq_of_ok (sym there ∙ ap (λ (x : Text). db_get metrics_tree x db) same ∙ g)) in
      subst (λ (v : Blob). is_old B cutoff_ms v ≡ true) stored both.1

  any-goes :
      (cutoff_ms : ℕ) (items : List (Result (Text × Blob))) (db : Db) (k : Text) (o : Option Blob)
      → db_iter metrics_tree db ≡ ok items
      → all is_ok items ≡ true
      → db_get metrics_tree k db ≡ ok o
      → (if any (goes cutoff_ms k) items then ok none else ok o) ≡ ok (left cutoff_ms o)
  any-goes cutoff_ms items db k none e readable g = ground arith
  any-goes cutoff_ms items db k (some value) e readable g =
      elim (Bool-cases (any (goes cutoff_ms k) items)) [
        | inl q ↦
            let (item, i, r) = any-In (goes cutoff_ms k) items q in
            let old = old_of_goes cutoff_ms items db k value item e g i r in rw (q, old) refl
        | inr q ↦ elim (Bool-cases (is_old B cutoff_ms value)) [
          | inr young ↦ rw (q, young) refl
          | inl old ↦
              let i = B.iter_of_get metrics_tree k value db items e readable g in
              let r = In-any (goes cutoff_ms k) items (ok (k, value)) i (rw (eq_refl k) old) in
              absurd (ground (arith, q, r))
        ]
      ]

  get-flush_if :
      (b : Bool) (k : Text) (db : Db)
      → db_get metrics_tree k (flush_if B b db).1 ≡ db_get metrics_tree k db
  get-flush_if true k db = B.get-flush metrics_tree k db
  get-flush_if false k db = refl

  flushed :
      (now max_age_secs : ℕ) (items : List (Result (Text × Blob))) (removed : ℕ) (s : LogStore B)
      → db_iter metrics_tree s.db ≡ ok items
      → (prune B (cutoff now max_age_secs) items 0 s.db).0 ≡ ok removed
      → (prune_metrics B now max_age_secs s).1.db
        ≡ (flush_if B (ltb 0 removed) (prune B (cutoff now max_age_secs) items 0 s.db).1).1
  unfolding prune_metrics
  flushed now max_age_secs items removed s p q =
      let flush = flush_if B (ltb 0 removed) (prune B (cutoff now max_age_secs) items 0 s.db).1 in
      elim (Result-cases flush.0) [
        | inl (e, r) ↦ ground (arith, p, q, r)
        | inr (u, r) ↦ ground (arith, p, q, r)
      ]

  get-left :
      (now max_age_secs n : ℕ) (s : LogStore B) (k : Text) (o : Option Blob)
      → (prune_metrics B now max_age_secs s).0 ≡ ok n
      → db_get metrics_tree k s.db ≡ ok o
      → db_get metrics_tree k (prune_metrics B now max_age_secs s).1.db
        ≡ ok (left (cutoff now max_age_secs) o)
  unfolding prune_metrics
  get-left now max_age_secs n s k o h g = elim (Result-cases (db_iter metrics_tree s.db)) [
    | inl (e, p) ↦ absurd (ground (arith, h, p))
    | inr (items, p) ↦
        let pruned = prune B (cutoff now max_age_secs) items 0 s.db in
        elim (Result-cases pruned.0) [
          | inl (e, q) ↦ absurd (ground (arith, h, p, q))
          | inr (removed, q) ↦
              let same : (prune_metrics B now max_age_secs s).1.db
                  ≡ (flush_if B (ltb 0 removed) pruned.1).1 =
                flushed now max_age_secs items removed s p q in
              ap (λ (d : Db). db_get metrics_tree k d) same
              ∙ get-flush_if (ltb 0 removed) k pruned.1
              ∙ get-prune (cutoff now max_age_secs) items 0 removed s.db k q
              ∙ rw g (
                  any-goes (cutoff now max_age_secs) items s.db k o p
                    (prune-all_ok (cutoff now max_age_secs) items 0 removed s.db q) g)
        ]
  ]

  left-stored :
      (cutoff_ms : ℕ) (value : Blob) (p : MetricPoint B.Float)
      → B.metric_json.from_slice value ≡ ok p
      → ((p.ts_ms < cutoff_ms) × (left cutoff_ms (some value) ≡ none))
        ⊎ ((cutoff_ms ≤ p.ts_ms) × (left cutoff_ms (some value) ≡ some value))
  unfolding is_old
  left-stored cutoff_ms value p e = elim (Bool-cases (ltb p.ts_ms cutoff_ms)) [
    | inl q ↦ inl (ground arith, rw (e, is_old, q) refl)
    | inr q ↦ inr (ground arith, rw (e, is_old, q) refl)
  ]

  left-broken :
      (cutoff_ms : ℕ) (value : Blob) (e : Error)
      → B.metric_json.from_slice value ≡ err e
      → left cutoff_ms (some value) ≡ none
  unfolding is_old
  left-broken cutoff_ms value e p = rw (p, is_old) refl

  -- A `prune_metrics` that succeeds removes exactly what is too old: under a key where nothing was
  -- stored there is nothing afterwards; what cannot be decoded is gone; a point whose time in
  -- milliseconds is below 1000 times the present time less the given age, both in seconds and the
  -- difference not below 0, is gone; and any other point stays as it is.
  pub get-prune_metrics :
      (now max_age_secs n : ℕ) (s : LogStore B) (k : Text) (o : Option Blob)
      → (prune_metrics B now max_age_secs s).0 ≡ ok n
      → db_get metrics_tree k s.db ≡ ok o
      → let found = db_get metrics_tree k (prune_metrics B now max_age_secs s).1.db in
        ((o ≡ none) × (found ≡ ok none))
        ⊎ ((value : Blob) × (o ≡ some value)
            × (((e : Error) × (B.metric_json.from_slice value ≡ err e) × (found ≡ ok none))
                ⊎ ((p : MetricPoint B.Float) × (B.metric_json.from_slice value ≡ ok p)
                    × (((p.ts_ms < (now - max_age_secs) * 1000) × (found ≡ ok none))
                        ⊎ (((now - max_age_secs) * 1000 ≤ p.ts_ms) × (found ≡ ok (some value)))))))
  get-prune_metrics now max_age_secs n s k none h g =
      inl (refl, get-left now max_age_secs n s k none h g)
  get-prune_metrics now max_age_secs n s k (some value) h g =
      let after = get-left now max_age_secs n s k (some value) h g in
      inr (
        value,
        refl,
        elim (Result-cases (B.metric_json.from_slice value)) [
          | inl (e, p) ↦ inl (e, p, after ∙ ap ok (left-broken (cutoff now max_age_secs) value e p))
          | inr (p, e) ↦ inr (
            p,
            e,
            elim (left-stored (cutoff now max_age_secs) value p e) [
              | inl (old, q) ↦ inl (old, after ∙ ap ok q)
              | inr (young, q) ↦ inr (young, after ∙ ap ok q)
            ],
          )
        ],
      )
