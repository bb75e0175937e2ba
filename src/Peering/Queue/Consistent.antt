-- ===== src/Peering/Queue/Consistent.antt =====
-- The list and the map of a `PeerQueue` agree: what adding and removing a peer does to both.
use armiarma.Base.{
  ℕ, suc, ◌+◌, ◌<◌, String, ◌≡◌, refl, sym, ◌∙◌, inl, inr, false, Option, none, some, List, [], ◌∷◌,
  arith, eq_iff, str_eq, if◌then◌else◌, Bool-cases, Option-cases, All, lookup, delete,
  lookup-insert, lookup-delete,
}
use armiarma.Peering.Peer.{PrunedPeer}
use mathlib.Core.Option
use mathlib.Core.Path.{subst}
use armiarma.Peering.Queue.{
  PeerQueue, is_peer_already, add_peer, remove_peer, index_of, get_peer, alloc, modify, store,
  new_peer_queue, remove_at,
}

-- The pointer to the first peer of a list with the id.
unfoldable pub find : (ℕ → PrunedPeer) → String → List ℕ → Option ℕ
find cells id [] = none
find cells id (r ∷ rs) = if str_eq (cells r).id id then some r else find cells id rs

-- No two peers of a list share an id.
abbrev pub Distinct : (ℕ → PrunedPeer) → List ℕ → Type 0
Distinct cells [] = Unit
Distinct cells (r ∷ rs) = (find cells (cells r).id rs ≡ none) × Distinct cells rs

pub record IsConsistent (q : PeerQueue) : Type 0 where
  pub allocated : All (λ r. r < q.next_cell) q.peer_list
  pub distinct : Distinct q.cells q.peer_list
  pub mapped : (id : String) → lookup id q.peer_map ≡ find q.cells id q.peer_list

-- The peer that the queue holds under an id.
abbrev pub peer_of : PeerQueue → String → Option PrunedPeer
peer_of q id = Option.map q.cells (lookup id q.peer_map)

pub new_peer_queue-IsConsistent : (p : PrunedPeer) → IsConsistent (new_peer_queue p)
unfolding new_peer_queue find lookup
new_peer_queue-IsConsistent p = record { allocated = tt; distinct = tt; mapped = λ id. refl }

-- Cells that keep their ids find the same peers.
pub find-same_ids :
    (cells cells' : ℕ → PrunedPeer) (id : String) (rs : List ℕ)
    → All (λ r. (cells' r).id ≡ (cells r).id) rs
    → find cells' id rs ≡ find cells id rs
unfolding find
find-same_ids cells cells' id [] h = refl
find-same_ids cells cells' id (r ∷ rs) h = rw (h.0, find-same_ids cells cells' id rs h.1) refl

pub Distinct-same_ids :
    (cells cells' : ℕ → PrunedPeer) (rs : List ℕ)
    → All (λ r. (cells' r).id ≡ (cells r).id) rs
    → Distinct cells rs
    → Distinct cells' rs
Distinct-same_ids cells cells' [] h d = tt
Distinct-same_ids cells cells' (r ∷ rs) h d = (
  rw (h.0, find-same_ids cells cells' (cells r).id rs h.1) d.0,
  Distinct-same_ids cells cells' rs h.1 d.1,
)

-- Allocation writes to no cell of the list.
All-alloc :
    (q : PeerQueue) (p : PrunedPeer) (rs : List ℕ)
    → All (λ r. r < q.next_cell) rs
    → All (λ r. (store q.cells q.next_cell p r).id ≡ (q.cells r).id) rs
All-alloc q p [] h = tt
All-alloc q p (r ∷ rs) h = (ground arith, All-alloc q p rs h.1)

All-lt-suc : (n : ℕ) (rs : List ℕ) → All (λ r. r < n) rs → All (λ r. r < n + 1) rs
All-lt-suc n [] h = tt
All-lt-suc n (r ∷ rs) h = (omega arith, All-lt-suc n rs h.1)

-- Adding a new peer with an id that the queue does not hold keeps the list and the map in agreement.
pub alloc-add_peer-IsConsistent :
    (q : PeerQueue) (p : PrunedPeer)
    → IsConsistent q
    → is_peer_already p.id q ≡ false
    → IsConsistent (let (r, q') = alloc p q in add_peer r q')
unfolding alloc add_peer is_peer_already find
alloc-add_peer-IsConsistent q p c h =
    let same = All-alloc q p q.peer_list c.allocated in
    let absent : lookup p.id q.peer_map ≡ none = ground arith in
    let own : (store q.cells q.next_cell p q.next_cell) ≡ p = ground arith in
    record {
      allocated = (omega arith, All-lt-suc q.next_cell q.peer_list c.allocated);
      distinct = (
        rw (own, find-same_ids q.cells (store q.cells q.next_cell p) p.id q.peer_list same)
            (sym (c.mapped p.id) ∙ absent),
        Distinct-same_ids q.cells (store q.cells q.next_cell p) q.peer_list same c.distinct,
      );
      mapped = λ id.
          rw
            (
              own,
              lookup-insert,
              find-same_ids q.cells (store q.cells q.next_cell p) id q.peer_list same,
              c.mapped id,
            )
            refl;
    }

-- The list with the peer at its index taken out.
unfoldable pub remove_at_index : (cells : ℕ → PrunedPeer) (id : String) (rs : List ℕ) → List ℕ
remove_at_index cells id rs = remove_at (index_of cells id rs) rs

suc_drop :
    (o : Option ℕ) (r : ℕ) (rs : List ℕ)
    → remove_at (elim o [ none ↦ none | some i ↦ some (suc i) ]) (r ∷ rs) ≡ r ∷ remove_at o rs
suc_drop none r rs = refl
suc_drop (some i) r rs = rw (suc_drop_lem i) refl
  where
    suc_drop_lem : (i : ℕ) → suc i + 1 ≡ suc (i + 1)
    suc_drop_lem i = omega arith

remove_at_index-nil : (cells : ℕ → PrunedPeer) (id : String) → remove_at_index cells id [] ≡ []
unfolding remove_at_index index_of
remove_at_index-nil cells id = refl

remove_at_index-cons :
    (cells : ℕ → PrunedPeer) (id : String) (r : ℕ) (rs : List ℕ)
    → remove_at_index cells id (r ∷ rs)
      ≡ (if str_eq (cells r).id id then rs else r ∷ remove_at_index cells id rs)
unfolding remove_at_index index_of
remove_at_index-cons cells id r rs = ground (arith, suc_drop (index_of cells id rs) r rs)

find-remove_at_index :
    (cells : ℕ → PrunedPeer) (id j : String) (rs : List ℕ)
    → Distinct cells rs
    → find cells j (remove_at_index cells id rs) ≡ (if str_eq id j then none else find cells j rs)
unfolding find
find-remove_at_index cells id j [] d = rw remove_at_index-nil (ground arith)
find-remove_at_index cells id j (r ∷ rs) d = rw remove_at_index-cons (
    ground (
      arith,
      eq_iff (cells r).id id,
      eq_iff (cells r).id j,
      eq_iff id j,
      find-remove_at_index cells id j rs d.1,
    ))

All-remove_at_index {κ} :
    (P : ℕ → Type κ) (cells : ℕ → PrunedPeer) (id : String) (rs : List ℕ)
    → All P rs
    → All P (remove_at_index cells id rs)
All-remove_at_index P cells id [] h = unfold remove_at_index index_of in tt
All-remove_at_index P cells id (r ∷ rs) h =
    rw remove_at_index-cons (elim (Bool-cases (str_eq (cells r).id id)) [
      | inl e ↦ rw e h.1
      | inr e ↦ rw e (h.0, All-remove_at_index P cells id rs h.1)
    ])

Distinct-remove_at_index :
    (cells : ℕ → PrunedPeer) (id : String) (rs : List ℕ)
    → Distinct cells rs
    → Distinct cells (remove_at_index cells id rs)
Distinct-remove_at_index cells id [] h = unfold remove_at_index index_of in tt
Distinct-remove_at_index cells id (r ∷ rs) h =
    rw remove_at_index-cons (elim (Bool-cases (str_eq (cells r).id id)) [
      | inl e ↦ rw e h.1
      | inr e ↦ rw e (
        find-remove_at_index cells id (cells r).id rs h.1 ∙ rw h.0 (ground arith),
        Distinct-remove_at_index cells id rs h.1,
      )
    ])

remove_peer-present :
    (id : String) (q : PeerQueue) (r : ℕ)
    → lookup id q.peer_map ≡ some r
    → remove_peer id q ≡ record q {
      peer_map = delete id q.peer_map;
      peer_list = remove_at_index q.cells id q.peer_list;
    }
unfolding remove_peer remove_at_index
remove_peer-present id q r h = rw (h, remove_peer) refl

remove_peer-absent :
    (id : String) (q : PeerQueue) → lookup id q.peer_map ≡ none → remove_peer id q ≡ q
unfolding remove_peer
remove_peer-absent id q h = rw (h, remove_peer) refl

-- Removing a peer keeps the list and the map in agreement.
pub remove_peer-IsConsistent :
    (id : String) (q : PeerQueue) → IsConsistent q → IsConsistent (remove_peer id q)
remove_peer-IsConsistent id q c = elim (Option-cases (lookup id q.peer_map)) [
  | inl h ↦ rw (remove_peer-absent id q h) c
  | inr (r, h) ↦ rw (remove_peer-present id q r h) (record {
    allocated = All-remove_at_index _ q.cells id q.peer_list c.allocated;
    distinct = Distinct-remove_at_index q.cells id q.peer_list c.distinct;
    mapped = λ j.
        lookup-delete id j q.peer_map
        ∙ rw (c.mapped j) (sym (find-remove_at_index q.cells id j q.peer_list c.distinct));
  })
]

-- After a removal the queue holds exactly the other peers, unchanged.
pub peer_of-remove_peer :
    (id j : String) (q : PeerQueue)
    → peer_of (remove_peer id q) j ≡ (if str_eq id j then none else peer_of q j)
peer_of-remove_peer id j q = elim (Option-cases (lookup id q.peer_map)) [
  | inl h ↦ rw (remove_peer-absent id q h) (ground (arith, h, eq_iff id j))
  | inr (r, h) ↦ rw (remove_peer-present id q r h, lookup-delete) (ground arith)
]

pub find-id :
    (cells : ℕ → PrunedPeer) (id : String) (rs : List ℕ) (r : ℕ)
    → find cells id rs ≡ some r
    → (cells r).id ≡ id
unfolding find
find-id cells id [] r h = cc
find-id cells id (s ∷ rs) r h = ground (arith, eq_iff (cells s).id id, find-id cells id rs r)

All-modify :
    (q : PeerQueue) (r : ℕ) (f : PrunedPeer → PrunedPeer) (rs : List ℕ)
    → (f (q.cells r)).id ≡ (q.cells r).id
    → All (λ s. (store q.cells r (f (q.cells r)) s).id ≡ (q.cells s).id) rs
All-modify q r f [] h = tt
All-modify q r f (s ∷ rs) h = (ground arith, All-modify q r f rs h)

-- A method that keeps the id of its peer keeps the list and the map in agreement.
pub modify-IsConsistent :
    (q : PeerQueue) (r : ℕ) (f : PrunedPeer → PrunedPeer)
    → IsConsistent q
    → (f (q.cells r)).id ≡ (q.cells r).id
    → IsConsistent (modify r f q)
unfolding modify
modify-IsConsistent q r f c h =
    let same = All-modify q r f q.peer_list h in
    let cells' = store q.cells r (f (q.cells r)) in
    record {
      allocated = c.allocated;
      distinct = Distinct-same_ids q.cells cells' q.peer_list same c.distinct;
      mapped = λ id. c.mapped id ∙ sym (find-same_ids q.cells cells' id q.peer_list same);
    }

-- A method called through the pointer that `GetPeer` returns for an id changes the peer of that id as
-- the method says, and no other peer of the queue.
pub peer_of-modify :
    (q : PeerQueue) (id j : String) (r : ℕ) (f : PrunedPeer → PrunedPeer)
    → IsConsistent q
    → get_peer id q ≡ some r
    → peer_of (modify r f q) j ≡ (if str_eq id j then Option.map f (peer_of q j) else peer_of q j)
unfolding modify get_peer
peer_of-modify q id j r f c h = elim (Option-cases (lookup j q.peer_map)) [
  | inl e ↦ rw e (ground arith)
  | inr (s, e) ↦
      let own : (q.cells r).id ≡ id = find-id q.cells id q.peer_list r (sym (c.mapped id) ∙ h) in
      let other : (q.cells s).id ≡ j = find-id q.cells j q.peer_list s (sym (c.mapped j) ∙ e) in
      rw e (ground (arith, eq_iff id j))
]

find-All {κ} :
    (P : ℕ → Type κ) (cells : ℕ → PrunedPeer) (id : String) (rs : List ℕ) (r : ℕ)
    → find cells id rs ≡ some r
    → All P rs
    → P r
unfolding find
find-All P cells id [] r e h = absurd (cc)
find-All P cells id (s ∷ rs) r e h = elim (Bool-cases (str_eq (cells s).id id)) [
  | inl t ↦ subst P (ground (arith, t)) h.0
  | inr t ↦ find-All P cells id rs r (ground (arith, t)) h.1
]

-- After a new peer was added, the queue holds it under its id, and every other peer as before.
pub peer_of-alloc-add_peer :
    (q : PeerQueue) (p : PrunedPeer) (id : String)
    → IsConsistent q
    → peer_of (let (r, q') = alloc p q in add_peer r q') id
      ≡ (if str_eq p.id id then some p else peer_of q id)
unfolding alloc add_peer
peer_of-alloc-add_peer q p id c =
    let own : store q.cells q.next_cell p q.next_cell ≡ p = ground arith in
    elim (Option-cases (lookup id q.peer_map)) [
      | inl e ↦ rw (own, lookup-insert, e) (ground (arith, own))
      | inr (s, e) ↦
          let old : s < q.next_cell =
            find-All (λ r. r < q.next_cell) q.cells id q.peer_list s (sym (c.mapped id) ∙ e)
              c.allocated in
          rw (own, lookup-insert, e) (ground (arith, own))
    ]
