-- ===== src/Peering/Queue/Order.antt =====
-- `SortPeerList` orders the peers by their next connection and loses none.
use armiarma.Base.{
  ℕ, ◌<◌, String, ◌≡◌, refl, sym, ◌∙◌, ◌≢◌, inl, inr, none, List, [], ◌∷◌, arith, eq_iff,
  Bool-cases, All,
}
use mathlib.Core.List.{Perm}
use mathlib.Core.List.Perm
use armiarma.Base.Int.{◌≤ℤ◌}
use armiarma.Peering.Peer.{PrunedPeer, next_connection}
use armiarma.Peering.Queue.{PeerQueue, less, insert_sorted, sort, sort_peer_list}
use armiarma.Peering.Queue.Consistent.{find, Distinct, IsConsistent}

-- Each peer of the list is dialled no later than all behind it.
abbrev pub IsOrdered : (ℕ → PrunedPeer) → List ℕ → Type 0
IsOrdered cells [] = Unit
IsOrdered cells (r ∷ rs) =
    All (λ s. next_connection (cells r) ≤ℤ next_connection (cells s)) rs × IsOrdered cells rs

module _ (cells : ℕ → PrunedPeer) where
  insert_sorted-perm : (r : ℕ) (rs : List ℕ) → Perm (insert_sorted cells r rs) (r ∷ rs)
  unfolding insert_sorted
  insert_sorted-perm r [] = Perm.refl (r ∷ [])
  insert_sorted-perm r (s ∷ ss) = elim (Bool-cases (less cells s r)) [
    | inl e ↦ rw e (Perm.trans (Perm.cons s (insert_sorted-perm r ss)) (Perm.swap r s ss))
    | inr e ↦ rw e (Perm.refl (r ∷ s ∷ ss))
  ]

  pub sort-perm : (rs : List ℕ) → Perm (sort cells rs) rs
  unfolding sort
  sort-perm [] = Perm.refl []
  sort-perm (r ∷ rs) =
      Perm.trans (insert_sorted-perm r (sort cells rs)) (Perm.cons r (sort-perm rs))

  insert_sorted-All {κ} :
      (P : ℕ → Type κ) (r : ℕ) (rs : List ℕ) → P r → All P rs → All P (insert_sorted cells r rs)
  unfolding insert_sorted
  insert_sorted-All P r [] p h = (p, tt)
  insert_sorted-All P r (s ∷ ss) p h = elim (Bool-cases (less cells s r)) [
    | inl e ↦ rw e (h.0, insert_sorted-All P r ss p h.1)
    | inr e ↦ rw e (p, h)
  ]

  sort-All {κ} : (P : ℕ → Type κ) (rs : List ℕ) → All P rs → All P (sort cells rs)
  unfolding sort
  sort-All P [] h = tt
  sort-All P (r ∷ rs) h = insert_sorted-All P r (sort cells rs) h.0 (sort-All P rs h.1)

  All-le_trans :
      (r s : ℕ) (ss : List ℕ)
      → next_connection (cells r) ≤ℤ next_connection (cells s)
      → All (λ t. next_connection (cells s) ≤ℤ next_connection (cells t)) ss
      → All (λ t. next_connection (cells r) ≤ℤ next_connection (cells t)) ss
  All-le_trans r s [] h a = tt
  All-le_trans r s (t ∷ ss) h a = (omega arith, All-le_trans r s ss h a.1)

  insert_sorted-IsOrdered :
      (r : ℕ) (rs : List ℕ) → IsOrdered cells rs → IsOrdered cells (insert_sorted cells r rs)
  unfolding insert_sorted less
  insert_sorted-IsOrdered r [] h = (tt, tt)
  insert_sorted-IsOrdered r (s ∷ ss) h = elim (Bool-cases (less cells s r)) [
    | inl e ↦ rw e (
      insert_sorted-All (λ t. next_connection (cells s) ≤ℤ next_connection (cells t)) r ss
          (ground arith) h.0,
      insert_sorted-IsOrdered r ss h.1,
    )
    | inr e ↦
        let le : next_connection (cells r) ≤ℤ next_connection (cells s) = ground arith in
        rw e ((le, All-le_trans r s ss le h.0), h)
  ]

  pub sort-IsOrdered : (rs : List ℕ) → IsOrdered cells (sort cells rs)
  unfolding sort
  sort-IsOrdered [] = tt
  sort-IsOrdered (r ∷ rs) = insert_sorted-IsOrdered r (sort cells rs) (sort-IsOrdered rs)

  find-insert_sorted :
      (id : String) (r : ℕ) (rs : List ℕ)
      → find cells (cells r).id rs ≡ none
      → find cells id (insert_sorted cells r rs) ≡ find cells id (r ∷ rs)
  unfolding insert_sorted find
  find-insert_sorted id r [] h = refl
  find-insert_sorted id r (s ∷ ss) h = ground (
    arith,
    eq_iff (cells r).id id,
    eq_iff (cells s).id id,
    eq_iff (cells s).id (cells r).id,
    find-insert_sorted id r ss,
  )

  find-none-cons :
      (id : String) (s : ℕ) (ss : List ℕ)
      → find cells id (s ∷ ss) ≡ none
      → ((cells s).id ≢ id) × (find cells id ss ≡ none)
  unfolding find
  find-none-cons id s ss h =
      (λ e. ground (arith, eq_iff (cells s).id id), ground (arith, eq_iff (cells s).id id))

  find-none_ne :
      (r s : ℕ) (ss : List ℕ)
      → (cells s).id ≢ (cells r).id
      → find cells (cells s).id ss ≡ none
      → find cells (cells s).id (r ∷ ss) ≡ none
  unfolding find
  find-none_ne r s ss n h = ground (arith, eq_iff (cells r).id (cells s).id)

  find-cons :
      (j : String) (s : ℕ) (l l' : List ℕ)
      → find cells j l ≡ find cells j l'
      → find cells j (s ∷ l) ≡ find cells j (s ∷ l')
  unfolding find
  find-cons j s l l' h = rw h refl

  insert_sorted-Distinct :
      (r : ℕ) (rs : List ℕ)
      → find cells (cells r).id rs ≡ none
      → Distinct cells rs
      → Distinct cells (insert_sorted cells r rs)
  unfolding insert_sorted
  insert_sorted-Distinct r [] h d = (unfold find in refl, tt)
  insert_sorted-Distinct r (s ∷ ss) h d =
      let (n, t) = find-none-cons (cells r).id s ss h in
      elim (Bool-cases (less cells s r)) [
        | inl e ↦ rw e (
          find-insert_sorted (cells s).id r ss t ∙ find-none_ne r s ss n d.0,
          insert_sorted-Distinct r ss t d.1,
        )
        | inr e ↦ rw e (h, d)
      ]

  find-sort :
      (id : String) (rs : List ℕ)
      → Distinct cells rs
      → find cells id (sort cells rs) ≡ find cells id rs
  unfolding sort
  find-sort id [] d = refl
  find-sort id (r ∷ rs) d =
      find-insert_sorted id r (sort cells rs) (find-sort (cells r).id rs d.1 ∙ d.0)
      ∙ find-cons id r (sort cells rs) rs (find-sort id rs d.1)

  sort-Distinct : (rs : List ℕ) → Distinct cells rs → Distinct cells (sort cells rs)
  unfolding sort
  sort-Distinct [] d = tt
  sort-Distinct (r ∷ rs) d =
      insert_sorted-Distinct r (sort cells rs) (find-sort (cells r).id rs d.1 ∙ d.0)
        (sort-Distinct rs d.1)

-- Sorting keeps the list and the map in agreement.
pub sort_peer_list-IsConsistent : (q : PeerQueue) → IsConsistent q → IsConsistent (sort_peer_list q)
unfolding sort_peer_list
sort_peer_list-IsConsistent q c = record {
  allocated = sort-All q.cells (λ r. r < q.next_cell) q.peer_list c.allocated;
  distinct = sort-Distinct q.cells q.peer_list c.distinct;
  mapped = λ id. c.mapped id ∙ sym (find-sort q.cells id q.peer_list c.distinct);
}

-- Sorting puts the peers in the order of their next connections, and neither adds nor loses one.
pub sort_peer_list-IsOrdered :
    (q : PeerQueue)
    → IsOrdered q.cells (sort_peer_list q).peer_list × Perm (sort_peer_list q).peer_list q.peer_list
unfolding sort_peer_list
sort_peer_list-IsOrdered q = (sort-IsOrdered q.cells q.peer_list, sort-perm q.cells q.peer_list)
