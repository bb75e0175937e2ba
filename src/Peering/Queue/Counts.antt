-- ===== src/Peering/Queue/Counts.antt =====
-- The distributions that the metrics read from the queue.
use armiarma.Base.{
  ℕ, ◌+◌, String, ◌≡◌, refl, ◌∙◌, inl, inr, [], ◌∷◌, str_eq, if◌then◌else◌, Option-cases, Dict,
  lookup,
}
use native.Mathlib.Nat.{add-zero, add_assoc, zero-add}
use armiarma.Groups.{
  shown, so_far, IsCounting, none_counts, count_one, lookup-count_one, so_far-shown,
  count_one-IsCounting,
}
use armiarma.Peering.Delay.{delay_text}
use armiarma.Peering.Peer.{PrunedPeer}
use armiarma.Peering.Queue.{
  PeerQueue, increment, distribution, delay_distribution, total_conn_error_distribution,
}

-- How many peers of a map have the key.
abbrev pub count : (PrunedPeer → String) → (ℕ → PrunedPeer) → String → Dict ℕ → ℕ
count key cells k [] = 0
count key cells k ((_, r) ∷ m) = (if str_eq (key (cells r)) k then 1 else 0) + count key cells k m

pub increment-count_one : (k : String) (m : Dict ℕ) → increment k m ≡ count_one k m
unfolding increment
increment-count_one k m = elim (Option-cases (lookup k m)) [
  | inl e ↦ rw (e, increment) refl
  | inr (n, e) ↦ rw (e, increment) refl
]

lookup-distribution :
    (key : PrunedPeer → String) (cells : ℕ → PrunedPeer) (m acc : Dict ℕ) (k : String)
    → IsCounting acc
    → lookup k (distribution key cells m acc) ≡ shown (so_far (lookup k acc) + count key cells k m)
unfolding distribution
lookup-distribution key cells [] acc k c = rw add-zero (c k)
lookup-distribution key cells ((_, r) ∷ m) acc k c = rw (increment-count_one (key (cells r)) acc) (
    lookup-distribution key cells m (count_one (key (cells r)) acc) k
      (count_one-IsCounting (key (cells r)) acc c)
    ∙ rw (lookup-count_one (key (cells r)) k acc c, so_far-shown, add_assoc) refl)

-- The distribution of delays shows under each name how many peers of the queue have a delay of that
-- name, and has no entry for a name that no peer has; so does that of connection errors.
pub distributions_count :
    (q : PeerQueue) (k : String)
    → (lookup k (delay_distribution q)
        ≡ shown (count (λ p. delay_text p.delay_obj.dtype) q.cells k q.peer_map))
      × (lookup k (total_conn_error_distribution q)
          ≡ shown (count (λ p. p.conn_error) q.cells k q.peer_map))
unfolding delay_distribution total_conn_error_distribution
distributions_count q k = (
  lookup-distribution _ q.cells q.peer_map [] k none_counts ∙ unfold lookup in rw zero-add refl,
  lookup-distribution _ q.cells q.peer_map [] k none_counts ∙ unfold lookup in rw zero-add refl,
)
