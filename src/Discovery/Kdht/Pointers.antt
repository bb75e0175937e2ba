-- ===== src/Discovery/Kdht/Pointers.antt =====
-- The array of the discovered peers and the pointers into it.
use armiarma.Base.{
  ℕ, zero, suc, ◌+◌, ◌^◌, ◌≤◌, ◌<◌, ◌≡◌, refl, sym, ap, ◌∙◌, inl, inr, Bool, true, false, Option,
  none, some, List, [], ◌∷◌, ◌++◌, arith, leb, ◌==◌, ltb→lt, Bool-cases, length, get_elem?, take,
  length-append, if_true, if_false,
}
use mathlib.Core.Path.{subst}
use armiarma.Models.HostInfo.{AddrInfo}
use armiarma.Discovery.Kdht.{
  DiscoveredPeers, PeersEvent, new_discovery_peers, pick, increment, has_key, add_peer, store_peer,
  append_peer, count_peer, next, get_next_peer, get_bootstrap_peer, load_pointer, compare_pointer,
  reset_pointer, take_peer, get_random_peer, draw, peers_step, peers_run, adds, stores, appends,
  counts, compares, looks, reads, seeks, loads, resets, takes, draws,
}
use armiarma.Discovery.Kdht.Entries.{
  increment_small, take-append, take-get_elem?, get_elem?-some, IsShorter, pick-IsShorter,
}

-- The most peers that there may be, the array, the two pointers, the number of peers that are appended and not counted, whether the iterator found a peer
-- to read, and the peers that it got.
pub record IsQueue (most : ℕ) (p_array : List AddrInfo) (rp wp uncounted : ℕ) (ready : Bool)
    (delivered : List AddrInfo) : Type 0 where
  pub fits : length p_array ≤ most
  pub counted : wp + uncounted ≡ length p_array
  pub behind : rp ≤ wp
  pub readable : ready ≡ true → rp < wp
  pub in_order : delivered ≡ take rp p_array

abbrev pub QueueOf : ℕ → DiscoveredPeers → Type 0
QueueOf k d = IsQueue k d.p_array d.rp d.wp (length d.appended) d.ready d.delivered

later :
    (k m : ℕ) (p_array : List AddrInfo) (rp wp n : ℕ) (ready : Bool) (delivered : List AddrInfo)
    → k ≤ m
    → IsQueue k p_array rp wp n ready delivered
    → IsQueue m p_array rp wp n ready delivered
later k m p_array rp wp n ready delivered l h = record {
  fits = (let f = h.fits in omega (arith, l));
  counted = h.counted;
  behind = h.behind;
  readable = h.readable;
  in_order = h.in_order;
}

append_peer-QueueOf :
    (k : ℕ) (o : Option (AddrInfo × List AddrInfo)) (d : DiscoveredPeers)
    → QueueOf k d
    → QueueOf (suc k) (append_peer o d)
append_peer-QueueOf k none d h = later k (suc k) _ _ _ _ _ _ (omega arith) h
append_peer-QueueOf k (some (p, ps)) d h = record {
  fits = (let f = h.fits in omega (arith, length-append {0} d.p_array (p ∷ [])));
  counted = (let c = h.counted in omega (arith, length-append {0} d.p_array (p ∷ [])));
  behind = h.behind;
  readable = h.readable;
  in_order =
      h.in_order
      ∙ sym (
          take-append d.rp d.p_array (p ∷ [])
            (let c = h.counted in let b = h.behind in omega arith));
}

count_peer-QueueOf :
    (k : ℕ) (o : Option (AddrInfo × List AddrInfo)) (d : DiscoveredPeers)
    → IsShorter d.appended o
    → k < 2 ^ 64
    → QueueOf k d
    → QueueOf k (count_peer o d)
count_peer-QueueOf k none d l small h = h
count_peer-QueueOf k (some (p, ps)) d l small h =
    let c = h.counted in
    let f = h.fits in
    let e = increment_small d.wp (omega arith) in
    record {
      fits = h.fits;
      counted = omega arith;
      behind = (let b = h.behind in omega arith);
      readable = λ r. (let b = h.readable r in omega arith);
      in_order = h.in_order;
    }

get_next_peer-QueueOf :
    (k : ℕ) (b : Bool) (o : Option AddrInfo) (d : DiscoveredPeers)
    → d.ready ≡ b
    → get_elem? d.p_array d.rp ≡ o
    → k < 2 ^ 64
    → QueueOf k d
    → QueueOf k (get_next_peer b o d) × ((get_next_peer b o d).crashed ≡ d.crashed)
get_next_peer-QueueOf k false o d hb ho small h = (h, refl)
get_next_peer-QueueOf k true none d hb ho small h =
    let r = h.readable hb in
    let c = h.counted in absurd (get_elem?-some d.rp d.p_array (omega arith) ho)
get_next_peer-QueueOf k true (some p) d hb ho small h =
    let r = h.readable hb in
    let c = h.counted in
    let f = h.fits in
    let e = increment_small d.rp (omega arith) in
    let e' : suc d.rp ≡ increment d.rp = omega arith in
    (
      record {
        fits = h.fits;
        counted = h.counted;
        behind = omega arith;
        readable = λ f. cc;
        in_order =
            ap (λ l. l ++ (p ∷ [])) h.in_order
            ∙ sym (take-get_elem? d.rp d.p_array p ho)
            ∙ ap (λ n. take n d.p_array) e';
      },
      refl,
    )

compare_pointer-QueueOf :
    (k : ℕ) (o : Option (ℕ × List ℕ)) (d : DiscoveredPeers)
    → QueueOf k d
    → QueueOf k (compare_pointer o d)
compare_pointer-QueueOf k none d h = h
compare_pointer-QueueOf k (some (v, vs)) d h = elim (Bool-cases (leb (length d.p_array) v)) [
  | inl f ↦ rw f h
  | inr f ↦ rw f h
]

take_peer-QueueOf :
    (k n : ℕ) (o : Option AddrInfo) (d : DiscoveredPeers)
    → QueueOf k d
    → QueueOf k (take_peer n o d)
take_peer-QueueOf k zero o d h = h
take_peer-QueueOf k (suc n) none d h = h
take_peer-QueueOf k (suc n) (some p) d h = h

step-QueueOf :
    (k : ℕ) (e : PeersEvent) (d : DiscoveredPeers)
    → k < 2 ^ 64
    → QueueOf k d
    → QueueOf (suc k) (peers_step e d)
unfolding peers_step add_peer get_bootstrap_peer next
step-QueueOf k (adds p) d small h =
    let h' = later k (suc k) _ _ _ _ _ _ (omega arith) h in
    elim (Bool-cases (has_key p.id d.p_map)) [ inl f ↦ rw f h' | inr f ↦ rw f h' ]
step-QueueOf k (stores i) d small h =
    let h' = later k (suc k) _ _ _ _ _ _ (omega arith) h in
    elim (pick i d.absent) as (λ o. QueueOf (suc k) (store_peer o d)) [
      | none ↦ h'
      | some (p, ps) ↦ h'
    ]
step-QueueOf k (appends i) d small h = append_peer-QueueOf k (pick i d.stored) d h
step-QueueOf k (counts i) d small h =
    later k (suc k) _ _ _ _ _ _ (omega arith)
      (count_peer-QueueOf k (pick i d.appended) d (pick-IsShorter i d.appended) small h)
step-QueueOf k looks d small h = record {
  fits = (let f = h.fits in omega arith);
  counted = h.counted;
  behind = h.behind;
  readable = λ r. ltb→lt d.rp d.wp r;
  in_order = h.in_order;
}
step-QueueOf k reads d small h =
    later k (suc k) _ _ _ _ _ _ (omega arith)
      (get_next_peer-QueueOf k d.ready (get_elem? d.p_array d.rp) d refl refl small h).0
step-QueueOf k seeks d small h =
    let h' = later k (suc k) _ _ _ _ _ _ (omega arith) h in
    elim (Bool-cases (length d.p_array == 0)) [ inl f ↦ rw f h' | inr f ↦ rw f h' ]
step-QueueOf k loads d small h =
    let h' = later k (suc k) _ _ _ _ _ _ (omega arith) h in
    elim d.seeking as (λ n. QueueOf (suc k) (load_pointer n d)) [ zero ↦ h' | suc n ↦ h' ]
step-QueueOf k (compares i) d small h =
    later k (suc k) _ _ _ _ _ _ (omega arith) (compare_pointer-QueueOf k (pick i d.loaded) d h)
step-QueueOf k resets d small h =
    let h' = later k (suc k) _ _ _ _ _ _ (omega arith) h in
    elim d.resetting as (λ n. QueueOf (suc k) (reset_pointer n d)) [ zero ↦ h' | suc n ↦ h' ]
step-QueueOf k takes d small h =
    later k (suc k) _ _ _ _ _ _ (omega arith)
      (take_peer-QueueOf k d.chosen (get_elem? d.p_array d.bp) d h)
step-QueueOf k (draws r) d small h =
    let h' = later k (suc k) _ _ _ _ _ _ (omega arith) h in
    elim (draw r d.p_array) as (λ o. QueueOf (suc k) (get_random_peer o d)) [
      | none ↦ h'
      | some p ↦ h'
    ]

run-QueueOf :
    (k : ℕ) (es : List PeersEvent) (d : DiscoveredPeers)
    → k + length es < 2 ^ 64
    → QueueOf k d
    → QueueOf (k + length es) (peers_run es d)
unfolding peers_run
run-QueueOf k [] d small h = later k (k + 0) _ _ _ _ _ _ (omega arith) h
run-QueueOf k (e ∷ es) d small h = elim (Bool-cases d.crashed) [
  | inl f ↦
      subst (QueueOf (k + suc (length es))) (sym (if_true _ _ _ f))
        (later k (k + suc (length es)) _ _ _ _ _ _ (omega arith) h)
  | inr f ↦ subst (QueueOf (k + suc (length es))) (sym (if_false _ _ _ f)) (
      later (suc k + length es) (k + suc (length es)) _ _ _ _ _ _ (omega arith) (
        run-QueueOf (suc k) es (peers_step e d) (omega (arith, small))
          (step-QueueOf k e d (omega (arith, small)) h)))
]

-- What the iterator got is the beginning of the array, and it never reads behind the array's end.
pub record IsOrdered (d : DiscoveredPeers) : Type 0 where
  pub delivered : d.delivered ≡ take d.rp d.p_array
  pub pointers : (d.rp ≤ d.wp) × (d.wp ≤ length d.p_array)
  pub no_panic : (peers_step reads d).crashed ≡ d.crashed

-- However the calls of the workers and of the iterator interleave, in fewer than 2^64 steps from an empty list: the peers that
-- the iterator got are the first of the array, in its order and each once for each entry, the pointers are in order, and its next
-- read does not panic.
pub peers_run-IsOrdered :
    (es : List PeersEvent) → length es < 2 ^ 64 → IsOrdered (peers_run es new_discovery_peers)
unfolding peers_step new_discovery_peers
peers_run-IsOrdered es small =
    let start : QueueOf 0 new_discovery_peers = record {
      fits = omega arith;
      counted = refl;
      behind = omega arith;
      readable = λ r. cc;
      in_order = refl;
    } in
    let h = run-QueueOf 0 es new_discovery_peers (omega (arith, small)) start in
    let d = peers_run es new_discovery_peers in
    let c = h.counted in
    record {
      delivered = h.in_order;
      pointers = (h.behind, omega arith);
      no_panic =
          (get_next_peer-QueueOf (length es) d.ready (get_elem? d.p_array d.rp) d refl refl small
            (later (0 + length es) (length es) _ _ _ _ _ _ (omega arith) h)).1;
    }
