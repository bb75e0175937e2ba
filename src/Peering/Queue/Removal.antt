-- ===== src/Peering/Queue/Removal.antt =====
-- What the removal of a peer does to the iteration over the list.
use armiarma.Base.{
  ℕ, zero, suc, ◌+◌, ◌≤◌, ◌<◌, String, ◌≡◌, refl, inl, inr, true, none, some, List, [], ◌∷◌, arith,
  Option-cases, length, get_elem?, lookup,
}
use mathlib.Core.Option
use native.Mathlib.Numerals.{add-one}
use armiarma.Peering.Peer.{PrunedPeer}
use armiarma.Peering.Queue.{
  PeerQueue, remove_peer, remove_at, index_of, get_next_peer, PrunedPeer, ℤ, valid_next_peer,
}

suc_one : (n : ℕ) → suc n + 1 ≡ suc (n + 1)
suc_one n = omega arith

get_elem?-none : (p : ℕ) (rs : List ℕ) → length rs ≤ p → get_elem? rs p ≡ none
get_elem?-none p [] h = refl
get_elem?-none zero (r ∷ rs) h = absurd (omega arith)
get_elem?-none (suc p) (r ∷ rs) h = get_elem?-none p rs (omega arith)

-- Behind the index every element moves one place to the front.
get_elem?-remove_at :
    (i p : ℕ) (rs : List ℕ)
    → i < length rs
    → i ≤ p
    → get_elem? (remove_at (some i) rs) p ≡ get_elem? rs (p + 1)
get_elem?-remove_at i p [] h l = absurd (omega arith)
get_elem?-remove_at zero p (r ∷ rs) h l = rw add-one refl
get_elem?-remove_at (suc i) zero (r ∷ rs) h l = absurd (omega arith)
get_elem?-remove_at (suc i) (suc p) (r ∷ rs) h l =
    rw (suc_one i, suc_one p) (get_elem?-remove_at i p rs (omega arith) (omega arith))

index_of-lt :
    (cells : ℕ → PrunedPeer) (id : String) (rs : List ℕ) (i : ℕ)
    → index_of cells id rs ≡ some i
    → i < length rs
unfolding index_of
index_of-lt cells id [] i h = cc
index_of-lt cells id (r ∷ rs) i h = elim (Option-cases (index_of cells id rs)) [
  | inl e ↦ ground (arith, e)
  | inr (j, e) ↦ ground (arith, e, index_of-lt cells id rs j e)
]

-- The removal of a peer that stands in front of the pointer, as every peer that was handed out in
-- this iteration does, makes the queue skip the peer that was next: what it hands out is the one behind.
pub get_next_peer-remove_peer :
    (id : String) (q : PeerQueue) (r i : ℕ)
    → lookup id q.peer_map ≡ some r
    → index_of q.cells id q.peer_list ≡ some i
    → i < q.peer_ptr
    → Option.map (λ x. x.0) (get_next_peer (remove_peer id q))
      ≡ get_elem? q.peer_list (q.peer_ptr + 1)
unfolding get_next_peer remove_peer
get_next_peer-remove_peer id q r i m x l =
    rw (m, remove_peer, x)
      (ground (
        arith,
        get_elem?-remove_at i q.peer_ptr q.peer_list (index_of-lt q.cells id q.peer_list i x)
            (omega arith),
      ))

get_elem?-remove_last :
    (i p : ℕ) (rs : List ℕ)
    → i < length rs
    → length rs ≤ p + 1
    → get_elem? (remove_at (some i) rs) p ≡ none
get_elem?-remove_last i p [] h l = absurd (omega arith)
get_elem?-remove_last zero p (r ∷ rs) h l = get_elem?-none p rs (omega arith)
get_elem?-remove_last (suc i) zero (r ∷ rs) h l = absurd (omega arith)
get_elem?-remove_last (suc i) (suc p) (r ∷ rs) h l =
    rw (suc_one i) (get_elem?-remove_last i p rs (omega arith) (omega arith))

-- The test `ValidNextPeer` and the read `GetNextPeer` take the lock one after the other. When the
-- pointer is at the last peer and any peer of the queue is removed in between, the read is out of
-- range and panics.
pub get_next_peer-race :
    (now : ℤ) (id : String) (q : PeerQueue) (r i : ℕ)
    → valid_next_peer now q ≡ true
    → q.peer_ptr + 1 ≡ length q.peer_list
    → lookup id q.peer_map ≡ some r
    → index_of q.cells id q.peer_list ≡ some i
    → get_next_peer (remove_peer id q) ≡ none
unfolding get_next_peer remove_peer
get_next_peer-race now id q r i v n m x =
    rw (m, remove_peer, x)
      (rw
        (
          get_elem?-remove_last i q.peer_ptr q.peer_list (index_of-lt q.cells id q.peer_list i x)
              (omega arith),
          get_next_peer,
        )
        refl)
