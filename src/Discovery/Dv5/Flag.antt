-- ===== src/Discovery/Dv5/Flag.antt =====
-- What the flag of the fork digest makes of the discovery of discv5.
use armiarma.Base.{
  ℕ, ◌≡◌, sym, ◌∙◌, ap, inl, inr, true, false, Option, none, some, String, List, [], ◌∷◌,
  Option-cases,
}
use mathlib.Core.Option
use armiarma.Base.Text.{codes, is_prefix}
use armiarma.Models.HostInfo.{HostInfo}
use armiarma.Ethereum.Records.{EnrNode}
use armiarma.Ethereum.ForkDigests.{Digests, text_eq, check_valid_fork_digest}
use armiarma.Ethereum.ForkDigests.Accepted.{Visits, text_eq_refl, check_valid_fork_digest-is_prefix}
use armiarma.Config.{EthereumCrawlerConfig, Flags, apply, given_subnets, given_keys}
use armiarma.Discovery.Dv5.{Libraries, Round, node_iterator}
use armiarma.Discovery.Dv5.Filter.{IsHostOf, AreHostsOf, node_iterator-Adds}

fork_digest-apply :
    (order : Digests → Digests) (fetch : String → Option (List ℕ))
    (read : String → Option (List String)) (f : Flags) (c c' : EthereumCrawlerConfig) (s d : List ℕ)
    → f.set_fork_digest ≡ some s
    → f.set_remote_cl_endpoint ≡ none
    → check_valid_fork_digest order s ≡ (d, true)
    → apply order fetch read f c ≡ some c'
    → c'.fork_digest ≡ d
unfolding apply
fork_digest-apply order fetch read f c c' s d flag no_remote valid e =
    elim (Option-cases (given_subnets f.set_subnet c.subnets)) [
      | inl n ↦ let e' = rw (no_remote, n, apply) at e in absurd (cc e')
      | inr (subnets, h) ↦ elim (Option-cases (given_keys read f.set_val_pubkeys c.val_pubkeys)) [
        | inl n ↦ let e' = rw (no_remote, h, n, apply) at e in absurd (cc e')
        | inr (keys, g) ↦
            let e' = rw (no_remote, h, g, flag, valid, apply) at e in
            sym (ap (λ (x : EthereumCrawlerConfig). x.fork_digest) (Option.some_inj.0 e'))
      ]
    ]

module _ {Key Eth2 : Type 0} (lib : Libraries Key Eth2) where
  -- A digest that is not that of all forks and has no prefix 0x lets no node pass.
  IsHostOf-is_prefix :
      (d : List ℕ) (r : Round Key Eth2) (h : HostInfo (EnrNode Key Eth2))
      → ((e : Eth2) → is_prefix (codes "0x") (lib.fork_digest_text e) ≡ true)
      → text_eq d (codes "all") ≡ false
      → is_prefix (codes "0x") d ≡ false
      → IsHostOf lib d r h
      → false ≡ true
  IsHostOf-is_prefix d r h prefixed not_all bare (node, enr, _, _, _, _, inl same) =
      sym bare ∙ ap (is_prefix (codes "0x")) (sym same) ∙ prefixed enr.eth2_data
  IsHostOf-is_prefix d r h prefixed not_all bare (node, enr, _, _, _, _, inr same) =
      sym not_all ∙ ap (λ t. text_eq t (codes "all")) same ∙ text_eq_refl (codes "all")

  nothing :
      (d : List ℕ) (rounds : List (Round Key Eth2)) (hs : List (HostInfo (EnrNode Key Eth2)))
      → ((e : Eth2) → is_prefix (codes "0x") (lib.fork_digest_text e) ≡ true)
      → text_eq d (codes "all") ≡ false
      → is_prefix (codes "0x") d ≡ false
      → AreHostsOf lib d rounds hs
      → hs ≡ []
  nothing d [] hs prefixed not_all bare e = e
  nothing d (r ∷ rounds) hs prefixed not_all bare (inl e) =
      nothing d rounds hs prefixed not_all bare e
  nothing d (r ∷ rounds) hs prefixed not_all bare (inr (h, rest, _, is, _)) =
      absurd (cc (IsHostOf-is_prefix d r h prefixed not_all bare is))

  -- When the flag of the fork digest is set to a text that is accepted and does not start with 0x, such as the name of a network, the
  -- word "all" or eight hexadecimal digits, and no remote endpoint is: the discovery sends no host, whatever nodes it finds, for
  -- the text of a fork digest starts with 0x. The map of the digests is visited in any order.
  pub node_iterator-apply :
      (order : Digests → Digests) (fetch : String → Option (List ℕ))
      (read : String → Option (List String)) (f : Flags) (c c' : EthereumCrawlerConfig) (s : List ℕ)
      (rounds : List (Round Key Eth2)) (out : List (HostInfo (EnrNode Key Eth2)))
      → Visits order
      → ((e : Eth2) → is_prefix (codes "0x") (lib.fork_digest_text e) ≡ true)
      → f.set_fork_digest ≡ some s
      → f.set_remote_cl_endpoint ≡ none
      → (check_valid_fork_digest order s).1 ≡ true
      → is_prefix (codes "0x") s ≡ false
      → apply order fetch read f c ≡ some c'
      → node_iterator lib c'.fork_digest rounds [] ≡ some out
      → out ≡ []
  node_iterator-apply order fetch read f c c' s rounds out visits prefixed flag no_remote valid bare
        e run =
      let d = (check_valid_fork_digest order s).0 in
      let answer : check_valid_fork_digest order s ≡ (d, true) = ap (λ b. (d, b)) valid in
      let (not_all, d_bare) = check_valid_fork_digest-is_prefix order s d visits bare answer in
      let same = fork_digest-apply order fetch read f c c' s d flag no_remote answer e in
      let (new, grown, hosts) = node_iterator-Adds lib d rounds [] out (rw same at run) in
      grown ∙ nothing d rounds new prefixed not_all d_bare hosts
