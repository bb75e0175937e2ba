-- ===== src/Discovery/Kdht/Race.antt =====
-- The race of the workers that read the array of the discovered peers.
use armiarma.Base.{
  ℕ, zero, suc, ◌+◌, ◌^◌, ◌≤◌, ◌<◌, ◌≡◌, refl, ap, ◌∙◌, ◌≢◌, true, false, Option, none, some, List,
  [], ◌∷◌, arith, length, get_elem?, if_true, if_false,
}
use armiarma.Models.HostInfo.{AddrInfo}
use armiarma.Discovery.Kdht.{
  DiscoveredPeers, PeersEvent, increment, take_peer, peers_step, peers_run, takes,
}
use armiarma.Discovery.Kdht.Entries.{increment_small, get_elem?-some}

crashed_stays :
    (es : List PeersEvent) (d : DiscoveredPeers)
    → d.crashed ≡ true
    → (peers_run es d).crashed ≡ true
unfolding peers_run
crashed_stays [] d h = h
crashed_stays (e ∷ es) d h = ap (λ (x : DiscoveredPeers). x.crashed) (if_true _ _ _ h) ∙ h

get_elem?-none : {A : Type 0} (n : ℕ) (xs : List A) → length xs ≤ n → get_elem? xs n ≡ none
get_elem?-none n [] h = refl
get_elem?-none zero (x ∷ xs) h = absurd (omega (arith, h))
get_elem?-none (suc n) (x ∷ xs) h = get_elem?-none n xs (omega (arith, h))

take_peer-none :
    (n : ℕ) (d : DiscoveredPeers)
    → 0 < n
    → length d.p_array ≤ d.bp
    → (take_peer n (get_elem? d.p_array d.bp) d).crashed ≡ true
take_peer-none zero d pn h = absurd (omega (arith, pn))
take_peer-none (suc n) d pn h =
    ap (λ o. (take_peer (suc n) o d).crashed) (get_elem?-none d.bp d.p_array h)

-- A read of a peer that is there.
first_take :
    (n : ℕ) (o : Option AddrInfo) (d : DiscoveredPeers)
    → 2 ≤ n
    → o ≢ none
    → ((take_peer n o d).crashed ≡ d.crashed)
      × (0 < (take_peer n o d).chosen)
      × ((take_peer n o d).p_array ≡ d.p_array)
      × ((take_peer n o d).bp ≡ increment d.bp)
first_take zero o d h s = absurd (omega (arith, h))
first_take (suc n) none d h s = absurd (s refl)
first_take (suc n) (some p) d h s = (refl, omega (arith, h), refl, refl)

-- When two workers have compared the pointer and it stands at the last peer, the second of their reads is behind the end
-- of the array and panics, whatever happens afterwards.
pub peers_run-race :
    (es : List PeersEvent) (d : DiscoveredPeers)
    → d.crashed ≡ false
    → 2 ≤ d.chosen
    → d.bp + 1 ≡ length d.p_array
    → length d.p_array < 2 ^ 64
    → (peers_run (takes ∷ takes ∷ es) d).crashed ≡ true
unfolding peers_run peers_step
peers_run-race es d hc h2 hb small =
    let d' = peers_step takes d in
    let there = get_elem?-some d.bp d.p_array (omega (arith, hb)) in
    let (c, n, a, b) = first_take d.chosen (get_elem? d.p_array d.bp) d h2 there in
    let e = increment_small d.bp (omega (arith, hb, small)) in
    let behind : length d'.p_array ≤ d'.bp = omega (arith, ap length a, b, e, hb) in
    let field = λ (x : DiscoveredPeers). x.crashed in
    ap field (if_false _ _ _ hc)
    ∙ ap field (if_false _ _ _ (c ∙ hc))
    ∙ crashed_stays es (peers_step takes d') (take_peer-none d'.chosen d' n behind)
