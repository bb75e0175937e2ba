-- ===== src/Peering/Metrics.antt =====
-- pkg/peering/metrics.go: the metrics of the peering service. A gauge with labels is the map of the values that were set; `registered`
-- are the names of the gauges that were handed to Prometheus.
pub mod Stale
use armiarma.Base.{ℕ, Option, none, some, String, Bool, true, List, [], ◌∷◌, ◌++◌, Dict, insert}
use armiarma.Peering.Iterator.{Iterator}
use armiarma.Peering.Exports.{
  control_distribution, get_error_attempt_distribution, get_conn_error_distribution,
  get_total_conn_error_distribution, attempted_peers_since_last_iter,
}
use armiarma.Metrics.{
  IndvMetrics, MetricsModule, new_metrics_module, new_indv_metrics, add_indv_metric,
}

pub record Gauges : Type 0 where
  pub strategy : Iterator
  -- The value of `LastIterTime`, a time of the clock.
  pub last_iter_time : ℕ
  pub registered : List String
  pub pruned_error : Dict ℕ
  pub error_attempt : Dict ℕ
  pub conn_error : Dict ℕ
  pub total_conn_error : Dict ℕ
  pub peers_attempted : ℕ
  pub iter_time : ℕ

pub data Summary : Type 0 where
  distribution : Dict ℕ → Summary
  number : ℕ → Summary

-- The loop over a distribution that sets a gauge and fills the summary; the gauge comes first.
unfoldable pub set_labels : Dict ℕ → Dict ℕ → Dict ℕ → Dict ℕ × Dict ℕ
set_labels [] gauge summary = (gauge, summary)
set_labels ((k, v) ∷ dist) gauge summary = set_labels dist (insert k v gauge) (insert k v summary)

-- The function that registers a gauge.
abbrev pub register : String → Gauges → Bool × Gauges
register name g = (true, record g { registered = g.registered ++ (name ∷ []) })

abbrev pub Update : Type 0
Update = Gauges → (Option Summary × Bool) × Gauges

abbrev pub update_pruned_error : Update
update_pruned_error g =
    let (gauge, summary) = set_labels (control_distribution g.strategy) g.pruned_error [] in
    ((some (distribution summary), true), record g { pruned_error = gauge })

abbrev pub update_error_attempt : Update
update_error_attempt g =
    let (gauge, summary) =
      set_labels (get_error_attempt_distribution g.strategy) g.error_attempt [] in
    ((some (distribution summary), true), record g { error_attempt = gauge })

abbrev pub update_peers_attempted : Update
update_peers_attempted g =
    let n = attempted_peers_since_last_iter g.strategy in
    ((some (number n), true), record g { peers_attempted = n })

abbrev pub update_iter_time : Update
update_iter_time g =
    ((some (number g.last_iter_time), true), record g { iter_time = g.last_iter_time })

abbrev pub update_conn_error : Update
update_conn_error g =
    let (gauge, summary) = set_labels (get_conn_error_distribution g.strategy) g.conn_error [] in
    ((some (distribution summary), true), record g { conn_error = gauge })

abbrev pub update_total_conn_error : Update
update_total_conn_error g =
    let (gauge, summary) =
      set_labels (get_total_conn_error_distribution g.strategy) g.total_conn_error [] in
    ((some (distribution summary), true), record g { total_conn_error = gauge })

-- A metric whose gauge has the name that is shown with the metric.
abbrev pub metric : String → Update → Option (IndvMetrics Gauges Summary)
metric name update = new_indv_metrics name (register name) update

unfoldable pub get_metrics : MetricsModule Gauges Summary
unfolding new_metrics_module add_indv_metric new_indv_metrics
get_metrics = add_indv_metric (metric "total_conn_error_distribution" update_total_conn_error) (
    add_indv_metric (metric "conn_error_distribution" update_conn_error) (
      add_indv_metric (metric "peerstore_iteration_time_secs" update_iter_time) (
        add_indv_metric (metric "peers_attempted_last_iteration" update_peers_attempted) (
          add_indv_metric
            (metric "iteration_attempts_by_category_distribution" update_error_attempt)
            (add_indv_metric (metric "pruned_error_distribution" update_pruned_error) (
              new_metrics_module "peering"
                "internal module of the crawler used for peering and prunning peers"))))))
