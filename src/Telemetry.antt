-- ===== src/Telemetry.antt =====
-- The history of metrics, crates/r4a-telemetry/src/store.rs: a database of its own, whose trees keep
-- their keys in order. `hex` writes the digits that `{:016x}` and `{:08x}` write for numbers of 64 and
-- 32 bits; the time comes from outside.
pub mod Pruning
use rust4eska.Prelude.{
  ℕ, ◌+◌, ◌*◌, ◌-◌, ◌/◌, ◌%◌, ◌^◌, zero, suc, Text, text, text_eq, nat_eq, List, [], ◌∷◌, ◌++◌,
  Result, ok, err, Exec, pure, lift, reads, Bool, true, false, ltb, nat_beq, if◌then◌else◌, length,
  take, ◌>>=◌, ◌>>◌,
}
use rust4eska.Models.{MetricPoint}
use rust4eska.Backend.{Backend}
use rust4eska.Store.{keep}

pub record LogStore (B : Backend) : Type 0 where
  pub db : B.Db
  pub seq : ℕ

abbrev pub metrics_tree : Text
metrics_tree = text "metrics"

abbrev hex_digit : ℕ → ℕ
hex_digit d = if ltb d 10 then b'0' + d else b'a' + (d - 10)

-- the last digits of a number in base 16, as many as the first argument says
unfoldable pub hex : ℕ → ℕ → Text
hex zero n = []
hex (suc width) n = hex width (n / 16) ++ (hex_digit (n % 16) ∷ [])

-- `{node}\0{ts_ms:016x}{seq:08x}`
unfoldable pub metric_key : Text → ℕ → ℕ → Text
metric_key node ts_ms seq = node ++ (0 ∷ hex 16 ts_ms ++ hex 8 seq)

abbrev reverse_onto : {A : Type 0} → List A → List A → List A
reverse_onto done [] = done
reverse_onto done (x ∷ xs) = reverse_onto (x ∷ done) xs

abbrev reverse : {A : Type 0} → List A → List A
reverse xs = reverse_onto [] xs

-- `now.saturating_sub(max_age_secs) * 1000`
abbrev pub cutoff : ℕ → ℕ → ℕ
cutoff now max_age_secs = (now - max_age_secs) * 1000

module _ (B : Backend) where
  open B use {Db, Blob, db_scan, db_iter, db_insert, db_remove, db_flush, metric_json}

  abbrev on_log : {A : Type 0} → Exec Db A → Exec (LogStore B) A
  on_log m s = let (r, db') = m s.db in (r, record s { db = db' })

  -- `seq.fetch_add(1)`, which wraps around
  abbrev next_seq : Exec (LogStore B) ℕ
  next_seq s = (ok s.seq, record s { seq = (s.seq + 1) % 2 ^ 32 })

  unfoldable pub append_metric : MetricPoint B.Float → Exec (LogStore B) (Unit {0})
  append_metric p = do
    reads (λ s. B.db_open metrics_tree s.db)
    seq ← next_seq
    value ← lift (metric_json.to_vec p)
    on_log (db_insert metrics_tree (metric_key p.node p.ts_ms seq) value)

  -- the loop over the last entries; what cannot be decoded is passed over
  abbrev points : List (Result (Text × Blob)) → Result (List (MetricPoint B.Float))
  points [] = ok []
  points (err e ∷ items) = err e
  points (ok (key, value) ∷ items) = elim (points items) [
    | ok rest ↦ ok (keep (metric_json.from_slice value) rest)
    | err e ↦ err e
  ]

  abbrev in_order : Result (List (MetricPoint B.Float)) → Result (List (MetricPoint B.Float))
  in_order (ok found) = ok (reverse found)
  in_order (err e) = err e

  unfoldable pub query_metrics : Text → ℕ → LogStore B → Result (List (MetricPoint B.Float))
  query_metrics node tail s = elim (db_scan metrics_tree (node ++ (0 ∷ [])) s.db) [
    | ok items ↦ in_order (points (take tail (reverse items)))
    | err e ↦ err e
  ]

  -- `p.ts_ms < cutoff_ms`, and true for what cannot be decoded
  unfoldable pub is_old : ℕ → Blob → Bool
  is_old cutoff_ms value = elim (metric_json.from_slice value) [
    | ok p ↦ ltb p.ts_ms cutoff_ms
    | err e ↦ true
  ]

  -- the loop; its result is the number of entries that were removed
  unfoldable pub prune : ℕ → List (Result (Text × Blob)) → ℕ → Exec Db ℕ
  prune cutoff_ms [] removed = pure removed
  prune cutoff_ms (err e ∷ items) removed = lift (err e)
  prune cutoff_ms (ok (key, value) ∷ items) removed =
      if is_old cutoff_ms value
      then (do db_remove metrics_tree key; prune cutoff_ms items (removed + 1))
      else prune cutoff_ms items removed

  abbrev pub flush_if : Bool → Exec Db (Unit {0})
  flush_if true = db_flush
  flush_if false = pure tt

  unfoldable pub prune_metrics : ℕ → ℕ → Exec (LogStore B) ℕ
  prune_metrics now max_age_secs = do
    items ← reads (λ s. db_iter metrics_tree s.db)
    removed ← on_log (prune (cutoff now max_age_secs) items 0)
    on_log (flush_if (ltb 0 removed))
    pure removed
