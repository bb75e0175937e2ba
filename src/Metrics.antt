-- ===== src/Metrics.antt =====
-- pkg/metrics/module.go and the loop of service.go: the modules of metrics. `S` is the type of what the functions of the metrics read and
-- write, the gauges of Prometheus among it, and `V` that of the values of a summary. A result `none` is a panic.
use armiarma.Base.{
  Option, none, some, String, Bool, true, false, List, [], ◌∷◌, ◌++◌, str_eq, if◌then◌else◌, Dict,
  insert,
}

-- The update gives a value and whether it has no error.
pub record IndvMetrics (S V : Type 0) : Type 0 where
  pub name : String
  pub init_fn : S → Bool × S
  pub update_fn : S → (Option V × Bool) × S

-- A metric of a module is a pointer, which may be nil.
pub record MetricsModule (S V : Type 0) : Type 0 where
  pub module_name : String
  pub details : String
  pub indv_metrics : List (Option (IndvMetrics S V))

module _ {S V : Type 0} where
  unfoldable pub new_metrics_module : String → String → MetricsModule S V
  new_metrics_module name details = record {
    module_name = name;
    details = details;
    indv_metrics = [];
  }

  -- `none` is the error that no name was given.
  unfoldable pub new_indv_metrics :
      String → (S → Bool × S) → (S → (Option V × Bool) × S) → Option (IndvMetrics S V)
  new_indv_metrics name init update =
      if str_eq name ""
      then none
      else some (record { name = name; init_fn = init; update_fn = update })

  unfoldable pub add_indv_metric : Option (IndvMetrics S V) → MetricsModule S V → MetricsModule S V
  add_indv_metric metric m = record m { indv_metrics = m.indv_metrics ++ (metric ∷ []) }

  unfoldable pub init_metrics : List (Option (IndvMetrics S V)) → S → Option (Bool × S)
  init_metrics [] s = some (true, s)
  init_metrics (none ∷ metrics) s = none
  init_metrics (some metric ∷ metrics) s =
      let (ok, s') = metric.init_fn s in
      let rest = init_metrics metrics s' in if ok then rest else some (false, s')

  unfoldable pub init : MetricsModule S V → S → Option (Bool × S)
  init m s = init_metrics m.indv_metrics s

  unfoldable pub update_metrics :
      List (Option (IndvMetrics S V)) → Dict (Option V) → S → Option (Dict (Option V) × S)
  update_metrics [] summary s = some (summary, s)
  update_metrics (none ∷ metrics) summary s = none
  update_metrics (some metric ∷ metrics) summary s =
      let ((value, _), s') = metric.update_fn s in
      update_metrics metrics (insert metric.name value summary) s'

  unfoldable pub update_summary : MetricsModule S V → S → Option (Dict (Option V) × S)
  update_summary m s = update_metrics m.indv_metrics [] s

  -- One tick of the loop: the modules are updated one after another.
  unfoldable pub update_modules : List (MetricsModule S V) → S → Option (List (Dict (Option V)) × S)
  update_modules [] s = some ([], s)
  update_modules (m ∷ ms) s = elim (update_summary m s) [
    | none ↦ none
    | some (summary, s') ↦ elim (update_modules ms s') [
      | none ↦ none
      | some (summaries, s'') ↦ some (summary ∷ summaries, s'')
    ]
  ]

  -- `initPrometheusMetrics`
  unfoldable pub init_modules : List (MetricsModule S V) → S → Option (Bool × S)
  init_modules [] s = some (true, s)
  init_modules (m ∷ ms) s = elim (init m s) [
    | none ↦ none
    | some (true, s') ↦ init_modules ms s'
    | some (false, s') ↦ some (false, s')
  ]
