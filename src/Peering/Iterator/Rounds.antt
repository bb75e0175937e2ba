-- ===== src/Peering/Iterator/Rounds.antt =====
-- What an iteration sends: no peer twice, and only peers that are ready.
use armiarma.Base.{
  ℕ, ◌+◌, ◌-◌, String, ◌≡◌, refl, sym, ap, ◌∙◌, inl, inr, ◌⊎◌, Bool, true, false, not, ◌&&◌, ◌||◌,
  none, some, List, [], ◌∷◌, arith, eq_iff, str_eq, Bool-cases, Option-cases, get_elem?, Dict,
  lookup, insert, lookup-insert,
}
use armiarma.Base.Int.{ℤ}
use armiarma.Peering.Peer.{is_ready_for_connection}
use armiarma.Peering.Queue.{PeerQueue, is_empty, valid_next_peer, get_next_peer, reset_peer_pointer}
use armiarma.Peering.Queue.Refresh.{peer_ptr-update_peer_list_from_remote_db}
use armiarma.Peering.Iterator.{
  Iterator, Output, sent, refreshed, repeated, Tick, set_off, remove_all, step, serve, hand_out,
  refresh, next_peer, compose_conn_errors, compose_delay_dist,
}

-- The peer at the pointer, when it exists and is ready.
valid_next_peer-get :
    (now : ℤ) (q : PeerQueue)
    → valid_next_peer now q ≡ true
    → (r : ℕ) × (get_elem? q.peer_list q.peer_ptr ≡ some r)
      × (is_ready_for_connection now (q.cells r) ≡ true)
unfolding valid_next_peer get_next_peer
valid_next_peer-get now q h = elim (Option-cases (get_elem? q.peer_list q.peer_ptr)) [
  | inl e ↦ absurd (ground (arith, e))
  | inr (r, e) ↦ (r, e, ground (arith, e))
]

-- The iteration has sent the peer.
abbrev pub is_seen : Dict ℕ → String → Bool
is_seen attempted j = elim (lookup j attempted) [ none ↦ false | some _ ↦ true ]

-- No peer is sent twice between two refreshes; `seen` are the ids sent since the last one.
abbrev pub NoRepeat : (String → Bool) → List Output → Type 0
NoRepeat seen [] = Unit
NoRepeat seen (sent h ∷ os) = (seen h.id ≡ false) × NoRepeat (λ j. str_eq h.id j || seen j) os
NoRepeat seen (refreshed ∷ os) = NoRepeat (λ _. false) os
NoRepeat seen (repeated _ ∷ os) = NoRepeat seen os

-- A step that reads no peer: the one at the pointer passed the test and the removals in between have left none there.
abbrev pub Panics : Tick → Iterator → Type 0
Panics t s =
    let q = remove_all t.before s.queue in
    (valid_next_peer t.now q ≡ true)
    × (get_elem? (remove_all t.between q).peer_list (remove_all t.between q).peer_ptr ≡ none)

-- The peer `r` stands at the pointer of what the removals leave, behind a test that the peer there was ready.
abbrev pub IsRead : Tick → Iterator → ℕ → Type 0
IsRead t s r =
    let q = remove_all t.before s.queue in
    let q' = remove_all t.between q in
    ((r0 : ℕ) × (get_elem? q.peer_list q.peer_ptr ≡ some r0)
      × (is_ready_for_connection t.now (q.cells r0) ≡ true))
    × (get_elem? q'.peer_list q'.peer_ptr ≡ some r)

-- One step, by what it puts out. `s` is the state before and `s'` the state behind it.
abbrev pub Follows : Tick → Iterator → Output → Iterator → Type 0
Follows t s (sent h) s' =
    let q = remove_all t.between (remove_all t.before s.queue) in
    (r : ℕ) × IsRead t s r
    × (h ≡ record { id = (q.cells r).id; network = (q.cells r).network; maddrs = (q.cells r).addr })
    × (lookup h.id s.attempted ≡ none)
    × (s'.attempted ≡ insert h.id r s.attempted)
    × (s'.queue ≡ record q { peer_ptr = q.peer_ptr + 1 })
    × (s'.requests ≡ s.requests)
Follows t s refreshed s' =
    let q = remove_all t.before s.queue in
    (is_empty q || not (valid_next_peer t.now q) ≡ true)
    × (s'.attempted ≡ [])
    × (s'.queue.peer_ptr ≡ 0)
    × (s'.requests ≡ s.requests + 1)
Follows t s (repeated id) s' =
    let q = remove_all t.between (remove_all t.before s.queue) in
    (r : ℕ) × IsRead t s r
    × (id ≡ (q.cells r).id)
    × (is_seen s.attempted id ≡ true)
    × (s'.attempted ≡ s.attempted)
    × (s'.queue ≡ record q { peer_ptr = q.peer_ptr + 1 })
    × (s'.requests ≡ s.requests + 1)

hand_out-Follows :
    (t : Tick) (s : Iterator) (r : ℕ)
    → IsRead t s r
    → let q = remove_all t.between (remove_all t.before s.queue) in
      let x = hand_out r (record q { peer_ptr = q.peer_ptr + 1 }) (set_off t s) in
      Follows t s x.1 x.0
unfolding next_peer hand_out
hand_out-Follows t s r e =
    let q = remove_all t.between (remove_all t.before s.queue) in
    elim (Option-cases (lookup (q.cells r).id s.attempted)) [
      | inl n ↦ rw (n, hand_out) (r, e, refl, n, refl, refl, refl)
      | inr (k, n) ↦ rw (n, hand_out) (r, e, refl, ground (arith, n), refl, refl, refl)
    ]

refresh-Follows :
    (t : Tick) (s : Iterator)
    → (not (is_empty (remove_all t.before s.queue))
        && valid_next_peer t.now (remove_all t.before s.queue))
      ≡ false
    → Follows t s refreshed (refresh t.reply (set_off t s))
unfolding refresh next_peer compose_conn_errors compose_delay_dist
refresh-Follows t s h = (
  ground arith,
  refl,
  peer_ptr-update_peer_list_from_remote_db t.reply
        (reset_peer_pointer (remove_all t.before s.queue))
      ∙ unfold reset_peer_pointer in refl,
  refl,
)

get_next_peer-none :
    (q : PeerQueue) → get_elem? q.peer_list q.peer_ptr ≡ none → get_next_peer q ≡ none
unfolding get_next_peer
get_next_peer-none q e = rw (e, get_next_peer) refl

get_next_peer-some :
    (q : PeerQueue) (r : ℕ)
    → get_elem? q.peer_list q.peer_ptr ≡ some r
    → get_next_peer q ≡ some (r, record q { peer_ptr = q.peer_ptr + 1 })
unfolding get_next_peer
get_next_peer-some q r e = rw (e, get_next_peer) refl

-- A step that found a peer to hand out.
valid-Follows :
    (t : Tick) (s : Iterator)
    → (not (is_empty (remove_all t.before s.queue))
        && valid_next_peer t.now (remove_all t.before s.queue))
      ≡ true
    → ((step t s ≡ none) × Panics t s)
      ⊎ ((s' : Iterator) × (o : Output) × (step t s ≡ some (s', o)) × Follows t s o s')
unfolding step
valid-Follows t s e =
    let q = remove_all t.before s.queue in
    let q' = remove_all t.between q in
    let valid : valid_next_peer t.now q ≡ true = ground (arith, e) in
    let (r0, at, ready) = valid_next_peer-get t.now q valid in
    elim (Option-cases (get_elem? q'.peer_list q'.peer_ptr)) [
      | inl n ↦ inl (rw (e, get_next_peer-none q' n) refl, (valid, n))
      | inr (r, n) ↦
          let x = hand_out r (record q' { peer_ptr = q'.peer_ptr + 1 }) (set_off t s) in
          inr (
            x.0,
            x.1,
            rw (e, get_next_peer-some q' r n) refl,
            hand_out-Follows t s r ((r0, at, ready), n),
          )
    ]

-- Whatever peers the recorder removes before the test of the next peer and between the test and the read, a step does one of four things.
-- It panics, and then the test had found a peer and the removals in between have left none at the pointer. Or it sends the peer
-- at the pointer, which was not sent in this iteration, notes it and moves the pointer on, after a test that the peer at the pointer
-- was ready. Or, when the list is empty or the peer at the pointer is missing or not ready, it starts the next iteration from the front
-- of the list and with no peer noted. Or it skips the peer at the pointer, which this iteration has sent. In the last two cases the
-- request waits again.
pub step-Follows :
    (t : Tick) (s : Iterator)
    → ((step t s ≡ none) × Panics t s)
      ⊎ ((s' : Iterator) × (o : Output) × (step t s ≡ some (s', o)) × Follows t s o s')
unfolding step
step-Follows t s =
    let q = remove_all t.before s.queue in
    elim (Bool-cases (not (is_empty q) && valid_next_peer t.now q)) [
      | inl e ↦ valid-Follows t s e
      | inr e ↦ inr (refresh t.reply (set_off t s), refreshed, rw e refl, refresh-Follows t s e)
    ]

NoRepeat-cong :
    (f g : String → Bool) (os : List Output)
    → ((j : String) → f j ≡ g j)
    → NoRepeat f os
    → NoRepeat g os
NoRepeat-cong f g [] h n = tt
NoRepeat-cong f g (sent x ∷ os) h n = (
  sym (h x.id) ∙ n.0,
  NoRepeat-cong (λ j. str_eq x.id j || f j) (λ j. str_eq x.id j || g j) os
      (λ j. ap (λ b. str_eq x.id j || b) (h j)) n.1,
)
NoRepeat-cong f g (refreshed ∷ os) h n = n
NoRepeat-cong f g (repeated _ ∷ os) h n = NoRepeat-cong f g os h n

seen-insert :
    (m : Dict ℕ) (id : String) (r : ℕ) (j : String)
    → is_seen (insert id r m) j ≡ (str_eq id j || is_seen m j)
seen-insert m id r j = ground (arith, eq_iff id j, lookup-insert id j r m)

-- What one step notes is what the rest of the outputs must avoid.
Follows-NoRepeat :
    (t : Tick) (s : Iterator) (o : Output) (s' : Iterator) (os : List Output)
    → Follows t s o s'
    → NoRepeat (is_seen s'.attempted) os
    → NoRepeat (is_seen s.attempted) (o ∷ os)
Follows-NoRepeat t s (sent h) s' os f n =
    let (r, at, e, fresh, noted, q, k) = f in
    (
      rw (fresh, is_seen) refl,
      NoRepeat-cong (is_seen s'.attempted) (λ j. str_eq h.id j || is_seen s.attempted j) os
          (λ j. rw noted (seen-insert s.attempted h.id r j)) n,
    )
Follows-NoRepeat t s refreshed s' os f n =
    NoRepeat-cong (is_seen s'.attempted) (λ j. false) os (λ j. rw f.1 (unfold lookup in refl)) n
Follows-NoRepeat t s (repeated id) s' os f n =
    let (r, at, e, seen, same, q, k) = f in
    NoRepeat-cong (is_seen s'.attempted) (is_seen s.attempted) os (λ j. rw same refl) n

served : (ts : List Tick) (s : Iterator) → NoRepeat (is_seen s.attempted) (serve ts s).1
unfolding serve
served [] s = tt
served (t ∷ ts) s =
    let u = record s { requests = s.requests - 1 } in
    elim (step-Follows t u) [
      | inl (e, _) ↦ rw (e, serve) tt
      | inr (s', o, e, f) ↦
          rw (e, serve) (Follows-NoRepeat t u o s' (serve ts s').1 f (served ts s'))
    ]

-- The same requests, with no removal between a test and its read.
abbrev pub undisturbed : List Tick → List Tick
undisturbed [] = []
undisturbed (t ∷ ts) = record t { between = [] } ∷ undisturbed ts

Panics-undisturbed : (t : Tick) (s : Iterator) → Panics (record t { between = [] }) s → true ≡ false
unfolding remove_all
Panics-undisturbed t s (valid, n) =
    let (r, at, ready) = valid_next_peer-get t.now (remove_all t.before s.queue) valid in
    let bad : some r ≡ none = sym at ∙ n in cc

served_undisturbed :
    (ts : List Tick) (s : Iterator) → (s' : Iterator) × ((serve (undisturbed ts) s).0 ≡ some s')
unfolding serve
served_undisturbed [] s = (s, refl)
served_undisturbed (t ∷ ts) s =
    let u = record s { requests = s.requests - 1 } in
    let t' = record t { between = [] } in
    elim (step-Follows t' u) [
      | inl (e, p) ↦ absurd (cc (Panics-undisturbed t u p))
      | inr (s', o, e, f) ↦ rw (e, serve) (served_undisturbed ts s')
    ]

-- Whatever requests are served and whatever peers the recorder removes meanwhile, no peer is sent twice between two refreshes, up to the
-- end or a panic; and when no peer is removed between a test of the next peer and the read of it, there is no panic.
pub serve-NoRepeat :
    (ts : List Tick) (s : Iterator)
    → NoRepeat (is_seen s.attempted) (serve ts s).1
      × ((s' : Iterator) × ((serve (undisturbed ts) s).0 ≡ some s'))
serve-NoRepeat ts s = (served ts s, served_undisturbed ts s)
