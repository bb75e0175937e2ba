-- ===== src/Discovery/Dv5/Filter.antt =====
-- Which nodes the discovery of discv5 lets pass, and what it lets pass of what the flag of the fork digest says.
use armiarma.Base.{
  ℕ, ◌≡◌, refl, ◌⊎◌, inl, inr, Bool, true, false, not, ◌&&◌, Option, none, some, String, List, [],
  ◌∷◌, ◌++◌, Bool-cases, Option-cases, lookup, lookup-insert,
}
use mathlib.Core.List.{append_assoc, append-nil}
use armiarma.Base.{sym, ◌∙◌, ap}
use armiarma.Base.Int.{ℤ, pos}
use armiarma.Models.HostInfo.{HostInfo, add_att, new_host_info, apply_options, with_ip_and_ports}
use armiarma.Ethereum.Records.{
  Enode, EnrNode, EnrParse, enr_panics, enr_refused, enr_parsed, parse_enr,
}
use armiarma.Ethereum.ForkDigests.{fork_digests, digest_of, text_eq}
use armiarma.Ethereum.ForkDigests.Accepted.{text_eq_sound}
use armiarma.Base.Text.{codes}
use armiarma.Discovery.Dv5.{
  Handling, panics, no_peer_id, not_valid_node, not_parsed, handled, Libraries, Round, is_filtered,
  with_peer_id, handle_parsed, handle_enr, notify, iterate, node_iterator,
}

all_digest : digest_of (codes "All") fork_digests ≡ codes "all"
unfolding digest_of text_eq
all_digest = refl

id-with_ip_and_ports :
    {A : Type 0} (new_multiaddr : List ℕ → Option (List ℕ)) (print_int : ℤ → List ℕ) (ip : List ℕ)
    (port : ℤ) (h : HostInfo A)
    → (with_ip_and_ports new_multiaddr print_int ip port h).0.id ≡ h.id
unfolding with_ip_and_ports
id-with_ip_and_ports new_multiaddr print_int ip port h =
    elim (Option-cases
      (new_multiaddr (codes "/ip4/" ++ (ip ++ (codes "/tcp/" ++ print_int port))))) [
        | inl e ↦ rw (e, with_ip_and_ports) refl
        | inr (m, e) ↦ rw (e, with_ip_and_ports) refl
      ]

module _ {Key Eth2 : Type 0} (lib : Libraries Key Eth2) (filter_digest : List ℕ) where
  -- A fork digest that is looked for.
  abbrev pub IsSought : List ℕ → Type 0
  IsSought digest = (digest ≡ filter_digest) ⊎ (filter_digest ≡ codes "all")

  passes-IsSought :
      (b : Bool) (digest : List ℕ)
      → text_eq digest filter_digest ≡ b
      → not b && not (text_eq filter_digest (codes "all")) ≡ false
      → IsSought digest
  passes-IsSought true digest e h = inl (text_eq_sound digest filter_digest e)
  passes-IsSought false digest e h = elim (Bool-cases (text_eq filter_digest (codes "all"))) [
    | inl a ↦ inr (text_eq_sound filter_digest (codes "all") a)
    | inr a ↦ let h' = rw a at h in absurd (cc h')
  ]

  is_filtered-IsSought :
      (enr : EnrNode Key Eth2)
      → is_filtered lib filter_digest enr ≡ false
      → IsSought (lib.fork_digest_text enr.eth2_data)
  unfolding is_filtered
  is_filtered-IsSought enr h =
      passes-IsSought (text_eq (lib.fork_digest_text enr.eth2_data) filter_digest)
        (lib.fork_digest_text enr.eth2_data) refl (rw all_digest at h)

  -- The host of a round: the record that it carries is what the node of the round parses to at the time of the round, its id is the peer
  -- id of the record's key, and the fork digest of the record is looked for.
  abbrev pub IsHostOf : Round Key Eth2 → HostInfo (EnrNode Key Eth2) → Type 0
  IsHostOf r h =
      (node : Enode Key Eth2) × (enr : EnrNode Key Eth2) × (r.next ≡ some node)
      × (parse_enr r.now lib.zero_eth2 node ≡ enr_parsed enr)
      × (lib.get_peer_id enr.pubkey ≡ some h.id)
      × (lookup "enr-info" h.attr ≡ some enr)
      × IsSought (lib.fork_digest_text enr.eth2_data)

  -- The hosts are those of some of the rounds, in the order of the rounds and one of each at most.
  abbrev pub AreHostsOf : List (Round Key Eth2) → List (HostInfo (EnrNode Key Eth2)) → Type 0
  AreHostsOf [] hs = hs ≡ []
  AreHostsOf (r ∷ rs) hs =
      AreHostsOf rs hs
      ⊎ ((h : HostInfo (EnrNode Key Eth2)) × (rest : List (HostInfo (EnrNode Key Eth2))) × (hs
            ≡ h ∷ rest)
          × IsHostOf r h
          × AreHostsOf rs rest)

  none_of : (rs : List (Round Key Eth2)) → AreHostsOf rs []
  none_of [] = refl
  none_of (r ∷ rs) = inl (none_of rs)

  abbrev IsResult : Round Key Eth2 → Handling Key Eth2 → Type 0
  IsResult r (handled h) = IsHostOf r h
  IsResult r x = Unit

  with_peer_id-IsResult :
      (r : Round Key Eth2) (node : Enode Key Eth2) (enr : EnrNode Key Eth2) (id : Option String)
      → r.next ≡ some node
      → parse_enr r.now lib.zero_eth2 node ≡ enr_parsed enr
      → lib.get_peer_id enr.pubkey ≡ id
      → is_filtered lib filter_digest enr ≡ false
      → IsResult r (with_peer_id lib filter_digest enr id)
  unfolding add_att new_host_info apply_options
  with_peer_id-IsResult r node enr none n p i f = tt
  with_peer_id-IsResult r node enr (some id) n p i f = (
    node,
    enr,
    n,
    p,
    i
        ∙ ap some (
            sym (
              id-with_ip_and_ports lib.new_multiaddr lib.print_int (lib.ip_text enr.ip)
                (pos enr.tcp) _)),
    lookup-insert "enr-info" "enr-info" enr _,
    is_filtered-IsSought enr f,
  )

  handle_parsed-IsResult :
      (r : Round Key Eth2) (node : Enode Key Eth2) (p : EnrParse Key Eth2)
      → r.next ≡ some node
      → parse_enr r.now lib.zero_eth2 node ≡ p
      → IsResult r (handle_parsed lib filter_digest p)
  handle_parsed-IsResult r node enr_panics n e = tt
  handle_parsed-IsResult r node (enr_refused x) n e = tt
  handle_parsed-IsResult r node (enr_parsed enr) n e =
      elim (Bool-cases (is_filtered lib filter_digest enr)) [
        | inl f ↦ rw f tt
        | inr f ↦ rw f (with_peer_id-IsResult r node enr (lib.get_peer_id enr.pubkey) n e refl f)
      ]

  -- What a round sends to the channel: nothing, or its host.
  abbrev Sends :
      Round Key Eth2
      → List (HostInfo (EnrNode Key Eth2))
      → List (HostInfo (EnrNode Key Eth2))
      → Type 0
  Sends r out out' =
      (out' ≡ out) ⊎ ((h : HostInfo (EnrNode Key Eth2)) × (out' ≡ out ++ (h ∷ [])) × IsHostOf r h)

  notify-Sends :
      (r : Round Key Eth2) (x : Handling Key Eth2) (out out' : List (HostInfo (EnrNode Key Eth2)))
      → IsResult r x
      → notify lib filter_digest x out ≡ some out'
      → Sends r out out'
  notify-Sends r panics out out' w e = cc
  notify-Sends r (handled h) out out' w e = inr (h, cc e, w)
  notify-Sends r no_peer_id out out' w e = inl (cc e)
  notify-Sends r not_valid_node out out' w e = inl (cc e)
  notify-Sends r (not_parsed x) out out' w e = inl (cc e)

  iterate-Sends :
      (r : Round Key Eth2) (next : Option (Enode Key Eth2))
      (out out' : List (HostInfo (EnrNode Key Eth2)))
      → r.next ≡ next
      → iterate lib filter_digest r.now next out ≡ some out'
      → Sends r out out'
  unfolding handle_enr
  iterate-Sends r none out out' n e = inl (cc e)
  iterate-Sends r (some node) out out' n e =
      notify-Sends r (handle_enr lib filter_digest r.now node) out out'
        (handle_parsed-IsResult r node (parse_enr r.now lib.zero_eth2 node) n refl) e

  -- What some rounds have sent behind what was there before.
  abbrev pub Adds :
      List (Round Key Eth2)
      → List (HostInfo (EnrNode Key Eth2))
      → List (HostInfo (EnrNode Key Eth2))
      → Type 0
  Adds rs out out' =
      (new : List (HostInfo (EnrNode Key Eth2))) × (out' ≡ out ++ new) × AreHostsOf rs new

  Adds-Sends :
      (r : Round Key Eth2) (rs : List (Round Key Eth2))
      (out mid out' : List (HostInfo (EnrNode Key Eth2)))
      → Sends r out mid
      → Adds rs mid out'
      → Adds (r ∷ rs) out out'
  Adds-Sends r rs out mid out' (inl same) (new, e, hosts) = (new, rw (← same) e, inl hosts)
  Adds-Sends r rs out mid out' (inr (h, grown, is)) (new, e, hosts) = (
    h ∷ new,
    e ∙ ap (λ l. l ++ new) grown ∙ append_assoc out (h ∷ []) new,
    inr (h, new, refl, is, hosts),
  )

  -- Whatever nodes discv5 finds and whenever it is shut down: what is sent to the channel, behind what was sent before, are hosts of some of
  -- the rounds, in their order and one of each at most. The record that a host carries is what the node of its round parses to at
  -- that time, its id is the peer id of the record's key, and the fork digest of the record is the one that is looked for, unless that is the
  -- one of all forks.
  pub node_iterator-Adds :
      (rounds : List (Round Key Eth2)) (out out' : List (HostInfo (EnrNode Key Eth2)))
      → node_iterator lib filter_digest rounds out ≡ some out'
      → Adds rounds out out'
  unfolding node_iterator
  node_iterator-Adds [] out out' e =
      let same : out' ≡ out = cc e in ([], same ∙ sym (append-nil out), refl)
  node_iterator-Adds (r ∷ rounds) out out' e = elim (Bool-cases r.is_shutdown) [
    | inl s ↦
        let same : out' ≡ out = (let e' = rw (s, node_iterator) at e in cc e') in
        ([], same ∙ sym (append-nil out), none_of (r ∷ rounds))
    | inr s ↦ elim (Option-cases (iterate lib filter_digest r.now r.next out)) [
      | inl n ↦ let e' = rw (s, n, node_iterator) at e in absurd (cc e')
      | inr (mid, h) ↦
          let e' = rw (s, h, node_iterator) at e in
          Adds-Sends r rounds out mid out' (iterate-Sends r r.next out mid refl h)
            (node_iterator-Adds rounds mid out' e')
    ]
  ]
