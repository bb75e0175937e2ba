-- ===== src/Peering/Exports.antt =====
-- pkg/peering/pruning_strategy.go: the methods by which the metrics read the state of the strategy.
pub mod Totals
use armiarma.Base.{
  ℕ, zero, suc, ◌+◌, min, String, refl, sym, ap, inl, inr, Bool, true, false, not, Option, none,
  some, List, [], ◌∷◌, map, arith, eq_iff, eq_refl, str_eq, ltb, leb, ltb→lt, lt→ltb, leb→le,
  ==_iff, Bool-cases, Option-cases, All, length, get_elem?, take, drop, length-append, length-take,
  length-drop, take-append-drop, Dict, lookup, insert, delete, lookup-insert, lookup-delete,
}
use armiarma.Peering.Queue.{delay_distribution, total_conn_error_distribution}
use armiarma.Peering.Iterator.{Iterator}

-- The sum of the values of a map.
unfoldable pub sum_values : Dict ℕ → ℕ
sum_values [] = 0
sum_values ((_, v) ∷ m) = v + sum_values m

-- `for k, v := range m { dist[k] = v }`
unfoldable pub copy_entries : Dict ℕ → Dict ℕ → Dict ℕ
copy_entries [] dist = dist
copy_entries ((k, v) ∷ m) dist = copy_entries m (insert k v dist)

unfoldable pub attempted_peers_since_last_iter : Iterator → ℕ
attempted_peers_since_last_iter s = sum_values s.attempted_peers

unfoldable pub control_distribution : Iterator → Dict ℕ
control_distribution s = delay_distribution s.queue

unfoldable pub get_error_attempt_distribution : Iterator → Dict ℕ
get_error_attempt_distribution s = copy_entries s.attempted_peers []

unfoldable pub get_total_conn_error_distribution : Iterator → Dict ℕ
get_total_conn_error_distribution s = total_conn_error_distribution s.queue

unfoldable pub get_conn_error_distribution : Iterator → Dict ℕ
get_conn_error_distribution s = copy_entries s.conn_errors []
