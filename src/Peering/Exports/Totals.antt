-- ===== src/Peering/Exports/Totals.antt =====
-- The distributions count every peer of the last iteration once.
use armiarma.Base.{
  ℕ, ◌+◌, String, ◌≡◌, refl, ◌∙◌, inl, inr, Option, List, [], ◌∷◌, arith, str_eq, Bool-cases,
  Option-cases, length, Dict, lookup, insert,
}
use armiarma.Peering.Peer.{PrunedPeer}
use armiarma.Peering.Delay.{delay_text}
use armiarma.Peering.Queue.{increment, distribution, RemoteConnectablePeer}
use armiarma.Peering.Iterator.{
  Iterator, refresh, next_peer, compose_delay_dist, compose_conn_errors,
}
use armiarma.Base.Int.{ℤ}
use armiarma.Groups.{so_far}
use native.Mathlib.Nat.{zero-add}
use armiarma.Peering.Exports.{sum_values, attempted_peers_since_last_iter}

sum_values-insert :
    (k : String) (v : ℕ) (m : Dict ℕ)
    → sum_values (insert k v m) + so_far (lookup k m) ≡ sum_values m + v
unfolding sum_values insert lookup
sum_values-insert k v [] = omega arith
sum_values-insert k v ((x, n) ∷ m) = elim (Bool-cases (str_eq x k)) [
  | inl f ↦ rw f (omega arith)
  | inr f ↦ rw f (omega (arith, sum_values-insert k v m))
]

sum_values-increment : (k : String) (m : Dict ℕ) → sum_values (increment k m) ≡ sum_values m + 1
unfolding increment
sum_values-increment k m = elim (Option-cases (lookup k m)) [
  | inl e ↦
      let i = sum_values-insert k 1 m in
      let z : so_far (lookup k m) ≡ 0 = rw e refl in rw (e, increment) (omega arith)
  | inr (n, e) ↦
      let i = sum_values-insert k (n + 1) m in
      let z : so_far (lookup k m) ≡ n = rw e refl in rw (e, increment) (omega arith)
]

sum_values-distribution :
    (key : PrunedPeer → String) (cells : ℕ → PrunedPeer) (m acc : Dict ℕ)
    → sum_values (distribution key cells m acc) ≡ sum_values acc + length m
unfolding distribution
sum_values-distribution key cells [] acc = omega arith
sum_values-distribution key cells ((_, r) ∷ m) acc = omega (
  arith,
  sum_values-distribution key cells m (increment (key (cells r)) acc),
  sum_values-increment (key (cells r)) acc,
)

-- The end of an iteration leaves as many attempted peers for the metrics as the iteration has sent, and the
-- distribution of their errors has as many in all.
pub attempted_peers_since_last_iter-refresh :
    (reply : Option (List (ℤ × RemoteConnectablePeer))) (s : Iterator)
    → (attempted_peers_since_last_iter (refresh reply s) ≡ length s.attempted)
      × (sum_values (refresh reply s).conn_errors ≡ length s.attempted)
unfolding attempted_peers_since_last_iter refresh next_peer compose_delay_dist compose_conn_errors
    sum_values
attempted_peers_since_last_iter-refresh reply s = (
  sum_values-distribution (λ p. delay_text p.delay_obj.dtype) s.queue.cells s.attempted []
      ∙ zero-add _,
  sum_values-distribution (λ p. p.conn_error) s.queue.cells s.attempted [] ∙ zero-add _,
)
