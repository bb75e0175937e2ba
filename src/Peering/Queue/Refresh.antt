-- ===== src/Peering/Queue/Refresh.antt =====
-- `UpdatePeerListFromRemoteDB`: the peers of the database join the queue, and those that the queue
-- holds keep what was recorded about them.
use armiarma.Base.{
  String, ◌≡◌, refl, ◌∙◌, inl, inr, true, false, Option, none, some, List, [], ◌∷◌, arith, eq_iff,
  str_eq, if◌then◌else◌, Bool-cases,
}
use armiarma.Base.Int.{ℤ}
use armiarma.Peering.Delay.{minus1}
use armiarma.Peering.Peer.{PrunedPeer, new_pruned_peer}
use armiarma.Peering.Queue.{
  PeerQueue, RemoteConnectablePeer, add_missing, add_all_missing, update_peer_list_from_remote_db,
  is_peer_already, alloc, add_peer, sort_peer_list,
}
use armiarma.Peering.Queue.Consistent.{
  IsConsistent, alloc-add_peer-IsConsistent, peer_of-alloc-add_peer, peer_of,
}
use armiarma.Peering.Queue.Order.{IsOrdered, sort_peer_list-IsConsistent, sort_peer_list-IsOrdered}

add_missing-IsConsistent :
    (now : ℤ) (c : RemoteConnectablePeer) (q : PeerQueue)
    → IsConsistent q
    → IsConsistent (add_missing now c q)
unfolding add_missing
add_missing-IsConsistent now c q h = elim (Bool-cases (is_peer_already c.id q)) [
  | inl e ↦ rw e h
  | inr e ↦ rw e (
      alloc-add_peer-IsConsistent q (new_pruned_peer now c.id c.addrs c.network minus1) h
        (unfold new_pruned_peer in e))
]

-- The peer that the database names, as a new peer of the queue.
abbrev pub fresh_peer : ℤ → RemoteConnectablePeer → PrunedPeer
fresh_peer now c = new_pruned_peer now c.id c.addrs c.network minus1

-- The first entry of the database for an id.
abbrev pub remote_of : List (ℤ × RemoteConnectablePeer) → String → Option PrunedPeer
remote_of [] id = none
remote_of ((now, c) ∷ cs) id = if str_eq c.id id then some (fresh_peer now c) else remote_of cs id

abbrev pub first_of_two : Option PrunedPeer → Option PrunedPeer → Option PrunedPeer
first_of_two none o = o
first_of_two (some p) o = some p

known :
    (k id : String) (q : PeerQueue) (p : PrunedPeer)
    → is_peer_already k q ≡ true
    → peer_of q id ≡ first_of_two (peer_of q id) (if str_eq k id then some p else none)
unfolding is_peer_already
known k id q p e = ground (arith, eq_iff k id)

unknown :
    (k id : String) (q : PeerQueue) (p : PrunedPeer)
    → is_peer_already k q ≡ false
    → (if str_eq k id then some p else peer_of q id)
      ≡ first_of_two (peer_of q id) (if str_eq k id then some p else none)
unfolding is_peer_already
unknown k id q p e = ground (arith, eq_iff k id)

first_of_two-none : (o : Option PrunedPeer) → o ≡ first_of_two o none
first_of_two-none none = refl
first_of_two-none (some p) = refl

peer_of-add_missing :
    (now : ℤ) (c : RemoteConnectablePeer) (q : PeerQueue) (id : String)
    → IsConsistent q
    → peer_of (add_missing now c q) id
      ≡ first_of_two (peer_of q id) (if str_eq c.id id then some (fresh_peer now c) else none)
unfolding add_missing new_pruned_peer
peer_of-add_missing now c q id h = elim (Bool-cases (is_peer_already c.id q)) [
  | inl e ↦ rw (e, add_missing) (known c.id id q (fresh_peer now c) e)
  | inr e ↦
      rw (e, add_missing)
        (peer_of-alloc-add_peer q (fresh_peer now c) id h ∙ unknown c.id id q (fresh_peer now c) e)
]

add_all_missing-IsConsistent :
    (cs : List (ℤ × RemoteConnectablePeer)) (q : PeerQueue)
    → IsConsistent q
    → IsConsistent (add_all_missing cs q)
unfolding add_all_missing
add_all_missing-IsConsistent [] q h = h
add_all_missing-IsConsistent ((now, c) ∷ cs) q h =
    add_all_missing-IsConsistent cs (add_missing now c q) (add_missing-IsConsistent now c q h)

peer_of-add_all_missing :
    (cs : List (ℤ × RemoteConnectablePeer)) (q : PeerQueue) (id : String)
    → IsConsistent q
    → peer_of (add_all_missing cs q) id ≡ first_of_two (peer_of q id) (remote_of cs id)
unfolding add_all_missing
peer_of-add_all_missing [] q id h = first_of_two-none (peer_of q id)
peer_of-add_all_missing ((now, c) ∷ cs) q id h =
    peer_of-add_all_missing cs (add_missing now c q) id (add_missing-IsConsistent now c q h)
    ∙ rw (peer_of-add_missing now c q id h) (ground arith)

-- A refresh from the database keeps the list and the map in agreement, leaves the peers in the order of their next
-- connections, keeps every peer that the queue held as it was, and adds for every other id in the database
-- its first entry as a new peer.
pub update_peer_list_from_remote_db_lem :
    (cs : List (ℤ × RemoteConnectablePeer)) (q : PeerQueue)
    → IsConsistent q
    → let q' = (update_peer_list_from_remote_db (some cs) q).0 in
      IsConsistent q'
      × IsOrdered q'.cells q'.peer_list
      × ((id : String) → peer_of q' id ≡ first_of_two (peer_of q id) (remote_of cs id))
unfolding update_peer_list_from_remote_db sort_peer_list
update_peer_list_from_remote_db_lem cs q h =
    let q' = add_all_missing cs q in
    let h' = add_all_missing-IsConsistent cs q h in
    (
      sort_peer_list-IsConsistent q' h',
      (sort_peer_list-IsOrdered q').0,
      λ id. peer_of-add_all_missing cs q id h,
    )

peer_ptr-add_all_missing :
    (cs : List (ℤ × RemoteConnectablePeer)) (q : PeerQueue)
    → (add_all_missing cs q).peer_ptr ≡ q.peer_ptr
unfolding add_all_missing add_missing alloc add_peer
peer_ptr-add_all_missing [] q = refl
peer_ptr-add_all_missing ((now, c) ∷ cs) q =
    peer_ptr-add_all_missing cs (add_missing now c q) ∙ ground arith

pub peer_ptr-update_peer_list_from_remote_db :
    (reply : Option (List (ℤ × RemoteConnectablePeer))) (q : PeerQueue)
    → (update_peer_list_from_remote_db reply q).0.peer_ptr ≡ q.peer_ptr
unfolding update_peer_list_from_remote_db sort_peer_list
peer_ptr-update_peer_list_from_remote_db none q = refl
peer_ptr-update_peer_list_from_remote_db (some cs) q = peer_ptr-add_all_missing cs q
