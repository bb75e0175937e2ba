-- ===== src/Peering/Queue.antt =====
-- pkg/peering/pruning_strategy.go, lines 360-548: `PeerQueue`, the list of the peers to dial in the
-- order of their next connection, and the map that finds a peer by its id.
-- The list and the map share their `*PrunedPeer`s, so the model has an explicit heap: a pointer is a
-- number, `cells` is what each points to and `next_cell` is the first pointer never handed out.
pub mod Consistent
pub mod Order
pub mod Refresh
pub mod Counts
pub mod Removal
use armiarma.Base.{
  ℕ, zero, suc, ◌+◌, min, String, refl, sym, ap, inl, inr, Bool, true, false, not, Option, none,
  some, List, [], ◌∷◌, ◌++◌, map, arith, eq_iff, eq_refl, str_eq, ltb, leb, ◌==◌, if◌then◌else◌,
  ltb→lt, lt→ltb, leb→le, ==_iff, Bool-cases, Option-cases, All, length, get_elem?, take, drop,
  length-append, length-take, length-drop, take-append-drop, Dict, lookup, insert, delete,
  lookup-insert, lookup-delete,
}
use armiarma.Base.Int.{ℤ, ltb_ℤ}
use armiarma.Peering.Delay.{minus1, delay_text}
use armiarma.Peering.Peer.{PrunedPeer, new_pruned_peer, next_connection, is_ready_for_connection}

pub record PeerQueue : Type 0 where
  pub peer_ptr : ℕ
  pub peer_list : List ℕ
  pub peer_map : Dict ℕ
  pub cells : ℕ → PrunedPeer
  pub next_cell : ℕ

-- The cells of a fresh heap are never read.
unfoldable pub new_peer_queue : PrunedPeer → PeerQueue
new_peer_queue unused = record {
  peer_ptr = 0;
  peer_list = [];
  peer_map = [];
  cells = λ _. unused;
  next_cell = 0;
}

-- Writing through a pointer.
abbrev pub store : (ℕ → PrunedPeer) → ℕ → PrunedPeer → ℕ → PrunedPeer
store cells r p = λ j. if j == r then p else cells j

unfoldable pub is_empty : PeerQueue → Bool
is_empty q = length q.peer_list == 0

-- The read `peerList[peerPtr]`; the index was tested before.
abbrev ready_at : ℤ → PeerQueue → Option ℕ → Bool
ready_at now q none = false
ready_at now q (some r) = is_ready_for_connection now (q.cells r)

unfoldable pub valid_next_peer : ℤ → PeerQueue → Bool
valid_next_peer now q =
    if leb (length q.peer_list) q.peer_ptr
    then false
    else ready_at now q (get_elem? q.peer_list q.peer_ptr)

-- `none` is the panic of an index out of range.
unfoldable pub get_next_peer : PeerQueue → Option (ℕ × PeerQueue)
get_next_peer q = elim (get_elem? q.peer_list q.peer_ptr) [
  | none ↦ none
  | some r ↦ some (r, record q { peer_ptr = q.peer_ptr + 1 })
]

unfoldable pub reset_peer_pointer : PeerQueue → PeerQueue
reset_peer_pointer q = record q { peer_ptr = 0 }

unfoldable pub is_peer_already : String → PeerQueue → Bool
is_peer_already id q = elim (lookup id q.peer_map) [ none ↦ false | some _ ↦ true ]

unfoldable pub add_peer : ℕ → PeerQueue → PeerQueue
add_peer r q = record q {
  peer_list = r ∷ q.peer_list;
  peer_map = insert (q.cells r).id r q.peer_map;
}

-- The loop of `RemovePeer` over the list; `none` is the index -1.
unfoldable pub index_of : (ℕ → PrunedPeer) → String → List ℕ → Option ℕ
index_of cells id [] = none
index_of cells id (r ∷ rs) =
    if str_eq (cells r).id id
    then some 0
    else elim (index_of cells id rs) [ none ↦ none | some i ↦ some (suc i) ]

abbrev pub remove_at : Option ℕ → List ℕ → List ℕ
remove_at none rs = rs
remove_at (some i) rs = take i rs ++ drop (i + 1) rs

unfoldable pub remove_peer : String → PeerQueue → PeerQueue
remove_peer id q = elim (lookup id q.peer_map) [
  | none ↦ q
  | some _ ↦ record q {
    peer_map = delete id q.peer_map;
    peer_list = remove_at (index_of q.cells id q.peer_list) q.peer_list;
  }
]

unfoldable pub get_peer : String → PeerQueue → Option ℕ
get_peer id q = lookup id q.peer_map

-- `&pp`: a new cell for a new peer.
unfoldable pub alloc : PrunedPeer → PeerQueue → ℕ × PeerQueue
alloc p q =
    (q.next_cell, record q { cells = store q.cells q.next_cell p; next_cell = q.next_cell + 1 })

-- A method call through a pointer.
unfoldable pub modify : ℕ → (PrunedPeer → PrunedPeer) → PeerQueue → PeerQueue
modify r f q = record q { cells = store q.cells r (f (q.cells r)) }

-- `Less` on the peers behind two pointers.
unfoldable pub less : (ℕ → PrunedPeer) → ℕ → ℕ → Bool
less cells r s = ltb_ℤ (next_connection (cells r)) (next_connection (cells s))

-- `sort.Sort`, which promises the order by `Less` and leaves ties open, as an insertion sort.
unfoldable pub insert_sorted : (ℕ → PrunedPeer) → ℕ → List ℕ → List ℕ
insert_sorted cells r [] = r ∷ []
insert_sorted cells r (s ∷ ss) = if less cells s r then s ∷ insert_sorted cells r ss else r ∷ s ∷ ss

unfoldable pub sort : (ℕ → PrunedPeer) → List ℕ → List ℕ
sort cells [] = []
sort cells (r ∷ rs) = insert_sorted cells r (sort cells rs)

unfoldable pub sort_peer_list : PeerQueue → PeerQueue
sort_peer_list q = record q { peer_list = sort q.cells q.peer_list }

-- `models.RemoteConnectablePeer`
pub record RemoteConnectablePeer : Type 0 where
  pub id : String
  pub addrs : List String
  pub network : String

-- One round of the loop of `UpdatePeerListFromRemoteDB`; `now` is the clock of `NewPrunedPeer`.
unfoldable pub add_missing : ℤ → RemoteConnectablePeer → PeerQueue → PeerQueue
add_missing now c q =
    if is_peer_already c.id q
    then q
    else (let (r, q') = alloc (new_pruned_peer now c.id c.addrs c.network minus1) q in
        add_peer r q')

-- The loop, with the clock at each round.
unfoldable pub add_all_missing : List (ℤ × RemoteConnectablePeer) → PeerQueue → PeerQueue
add_all_missing [] q = q
add_all_missing ((now, c) ∷ cs) q = add_all_missing cs (add_missing now c q)

-- The query to the database answers with its peers, or fails (`none`); the Boolean is `err == nil`.
unfoldable pub update_peer_list_from_remote_db :
    Option (List (ℤ × RemoteConnectablePeer)) → PeerQueue → PeerQueue × Bool
update_peer_list_from_remote_db none q = (q, false)
update_peer_list_from_remote_db (some cs) q = (sort_peer_list (add_all_missing cs q), true)

-- The distributions: one more for the key.
unfoldable pub increment : String → Dict ℕ → Dict ℕ
increment k m = elim (lookup k m) [ none ↦ insert k 1 m | some n ↦ insert k (n + 1) m ]

unfoldable pub distribution : (PrunedPeer → String) → (ℕ → PrunedPeer) → Dict ℕ → Dict ℕ → Dict ℕ
distribution key cells [] acc = acc
distribution key cells ((_, r) ∷ m) acc = distribution key cells m (increment (key (cells r)) acc)

unfoldable pub delay_distribution : PeerQueue → Dict ℕ
delay_distribution q = distribution (λ p. delay_text p.delay_obj.dtype) q.cells q.peer_map []

unfoldable pub total_conn_error_distribution : PeerQueue → Dict ℕ
total_conn_error_distribution q = distribution (λ p. p.conn_error) q.cells q.peer_map []
