-- ===== src/Peering/Metrics/Stale.antt =====
-- What the gauges of pkg/peering/metrics.go show after an update.
use armiarma.Base.{
  ℕ, ◌≡◌, refl, ap, ◌∙◌, Option, none, some, String, [], ◌∷◌, eq_iff, str_eq, inl, inr, Bool-cases,
  ◌+◌, Dict, lookup, insert, lookup-insert,
}
use armiarma.Groups.{shown, so_far, HasDistinctKeys, insert-HasDistinctKeys, lookup-cons, or_before}
use armiarma.Metrics.{update_summary, update_metrics}
use armiarma.Peering.Delay.{delay_text}
use armiarma.Peering.Peer.{PrunedPeer}
use armiarma.Peering.Queue.{
  PeerQueue, increment, distribution, delay_distribution, total_conn_error_distribution,
}
use armiarma.Peering.Queue.Counts.{count, increment-count_one, distributions_count}
use armiarma.Peering.Exports.{control_distribution, get_total_conn_error_distribution}
use armiarma.Peering.Metrics.{Gauges, Summary, set_labels, get_metrics}

lookup-set_labels :
    (k : String) (dist gauge summary : Dict ℕ)
    → HasDistinctKeys dist
    → lookup k (set_labels dist gauge summary).0 ≡ or_before (lookup k dist) (lookup k gauge)
unfolding set_labels
lookup-set_labels k [] gauge summary h = unfold lookup in refl
lookup-set_labels k ((j, v) ∷ dist) gauge summary h =
    lookup-set_labels k dist (insert j v gauge) (insert j v summary) h.1
    ∙ elim (Bool-cases (str_eq j k)) [
      | inl same ↦
          let e : lookup k dist ≡ none = rw (← (eq_iff j k).0 same) h.0 in
          simp (e, lookup-insert, lookup-cons, same)
      | inr other ↦ simp (lookup-insert, lookup-cons, other)
    ]

distribution-HasDistinctKeys :
    (key : PrunedPeer → String) (cells : ℕ → PrunedPeer) (m acc : Dict ℕ)
    → HasDistinctKeys acc
    → HasDistinctKeys (distribution key cells m acc)
unfolding distribution
distribution-HasDistinctKeys key cells [] acc h = h
distribution-HasDistinctKeys key cells ((_, r) ∷ m) acc h =
    distribution-HasDistinctKeys key cells m (increment (key (cells r)) acc) (
      rw (increment-count_one (key (cells r)) acc)
        (insert-HasDistinctKeys (key (cells r)) (so_far (lookup (key (cells r)) acc) + 1) acc h))

-- A gauge that was set by the two distributions of the queue.
gauge_of :
    (key : PrunedPeer → String) (k : String) (q : PeerQueue) (gauge : Dict ℕ)
    → lookup k (distribution key q.cells q.peer_map []) ≡ shown (count key q.cells k q.peer_map)
    → lookup k (set_labels (distribution key q.cells q.peer_map []) gauge []).0
      ≡ or_before (shown (count key q.cells k q.peer_map)) (lookup k gauge)
gauge_of key k q gauge e =
    lookup-set_labels k (distribution key q.cells q.peer_map []) gauge []
      (distribution-HasDistinctKeys key q.cells q.peer_map [] tt)
    ∙ ap (λ shows. or_before shows (lookup k gauge)) e

-- An update of the metrics of the peering service does not panic. The gauge of the delays then shows under each name how
-- many peers of the map have a delay of that name, and so does the gauge of the errors; but where none has, both
-- show what they showed before.
pub update_summary-get_metrics :
    (g : Gauges)
    → (r : Dict (Option Summary) × Gauges) × (update_summary get_metrics g ≡ some r)
      × ((k : String)
          → (lookup k r.1.pruned_error
              ≡ or_before
                  (shown (
                    count
                      (λ p. delay_text p.delay_obj.dtype)
                      g.strategy.queue.cells
                      k
                      g.strategy.queue.peer_map))
                  (lookup k g.pruned_error))
            × (lookup k r.1.total_conn_error
                ≡ or_before
                    (shown (
                      count (λ p. p.conn_error) g.strategy.queue.cells k g.strategy.queue.peer_map))
                    (lookup k g.total_conn_error)))
unfolding update_summary update_metrics get_metrics control_distribution
    get_total_conn_error_distribution delay_distribution total_conn_error_distribution
update_summary-get_metrics g = (
  _,
  refl,
  λ k. (
    gauge_of (λ p. delay_text p.delay_obj.dtype) k g.strategy.queue g.pruned_error
        (distributions_count g.strategy.queue k).0,
    gauge_of (λ p. p.conn_error) k g.strategy.queue g.total_conn_error
        (distributions_count g.strategy.queue k).1,
  ),
)
