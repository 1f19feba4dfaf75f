-- ===== src/Tests/History.antt =====
-- Points of the history of metrics, appended, queried and pruned.
use rust4eska.Prelude.{
  ◌≡◌, ◌⊎◌, ◌-◌, ◌*◌, ◌<◌, ◌≤◌, Option, err, Error, refl, ℕ, Text, text, none, some, [], ◌∷◌, ◌++◌,
  ok,
}
use rust4eska.Models.{MetricPoint}
use rust4eska.Backend.Memory.{Doc, memory, lookup, without, entries, scanned, metric}
use rust4eska.Telemetry.{
  LogStore, metrics_tree, metric_key, hex, append_metric, query_metrics, prune_metrics, prune,
  is_old,
}
use rust4eska.Telemetry.Pruning.{get-prune_metrics}

abbrev point : Text → ℕ → MetricPoint ℕ
point node ts_ms = record {
  node = node;
  ts_ms = ts_ms;
  cpu_percent = 10;
  ram_used_mb = 100;
  ram_total_mb = 1000;
  vram_used_mb = none;
  vram_total_mb = none;
}

abbrev empty : LogStore memory
empty = record { db = []; seq = 0 }

keys : metric_key (text "n1") 1000 10 ≡ text "n1\0" ++ text "00000000000003e8" ++ text "0000000a"
unfolding metric_key hex
keys = refl

abbrev filled : LogStore memory
filled =
    (append_metric memory (point (text "n1") 90000)
      (append_metric memory (point (text "n1") 1000) empty).1).1

queries :
    query_metrics memory (text "n1") 1 (append_metric memory (point (text "n1") 1000) empty).1
    ≡ ok (point (text "n1") 1000 ∷ [])
unfolding query_metrics append_metric metric_key hex lookup without entries scanned
queries = refl

abbrev old_key : Text
old_key = metric_key (text "n1") 1000 0

prunes : (prune_metrics memory 100 60 filled).0 ≡ ok 1
unfolding prune_metrics prune is_old append_metric metric_key hex lookup without entries
prunes = refl

abbrev stored_point : Option Doc
stored_point = some (metric (point (text "n1") 1000))

stored : memory.db_get metrics_tree old_key filled.db ≡ ok stored_point
unfolding append_metric metric_key hex lookup without
stored = refl

get-prune_metrics_example :
    let found = memory.db_get metrics_tree old_key (prune_metrics memory 100 60 filled).1.db in
    (stored_point ≡ none × (found ≡ ok none))
    ⊎ ((value : Doc) × (stored_point ≡ some value)
        × (((e : Error) × (memory.metric_json.from_slice value ≡ err e) × (found ≡ ok none))
            ⊎ ((p : MetricPoint ℕ) × (memory.metric_json.from_slice value ≡ ok p)
                × (((p.ts_ms < (100 - 60) * 1000) × (found ≡ ok none))
                    ⊎ (((100 - 60) * 1000 ≤ p.ts_ms) × (found ≡ ok (some value)))))))
get-prune_metrics_example =
    get-prune_metrics memory 100 60 1 filled old_key stored_point prunes stored

is_gone : memory.db_get metrics_tree old_key (prune_metrics memory 100 60 filled).1.db ≡ ok none
unfolding prune_metrics prune is_old append_metric metric_key hex lookup without entries
is_gone = refl
