-- ===== src/Discovery/Dv5.antt =====
-- pkg/discovery/dv5/dv5_service.go: what becomes of the nodes that discv5 finds. The iterator of go-ethereum is the list of what it
-- gives; the texts and the peer ids of its values are parameters.
pub mod Filter
pub mod Flag
mod Tests
use armiarma.Base.{
  ℕ, Bool, true, false, not, ◌&&◌, Option, none, some, String, List, [], ◌∷◌, ◌++◌, if◌then◌else◌,
}
use armiarma.Base.Int.{ℤ, pos}
use armiarma.Base.Text.{codes}
use armiarma.Utils.UserAgent.{ethereum_network}
use armiarma.Models.HostInfo.{HostInfo, new_host_info, with_ip_and_ports, add_att}
use armiarma.Ethereum.Records.{
  Enode, EnrNode, EnrParse, EnrError, enr_panics, enr_refused, enr_parsed, parse_enr,
}
use armiarma.Ethereum.ForkDigests.{fork_digests, digest_of, text_eq}

-- The results of `handleENR`.
pub data Handling (Key Eth2 : Type 0) : Type 0 where
  panics no_peer_id not_valid_node : Handling Key Eth2
  not_parsed : EnrError → Handling Key Eth2
  handled : HostInfo (EnrNode Key Eth2) → Handling Key Eth2

-- What go-ethereum and the libraries of libp2p give.
pub record Libraries (Key Eth2 : Type 0) : Type 0 where
  pub zero_time : ℤ
  pub zero_eth2 : Eth2
  pub fork_digest_text : Eth2 → List ℕ
  pub get_peer_id : Key → Option String
  pub ip_text : List ℕ → List ℕ
  pub new_multiaddr : List ℕ → Option (List ℕ)
  pub print_int : ℤ → List ℕ

module _ {Key Eth2 : Type 0} (lib : Libraries Key Eth2) (filter_digest : List ℕ) where
  unfoldable pub is_filtered : EnrNode Key Eth2 → Bool
  is_filtered enr =
      not (text_eq (lib.fork_digest_text enr.eth2_data) filter_digest)
      && not (text_eq filter_digest (digest_of (codes "All") fork_digests))

  abbrev pub with_peer_id : EnrNode Key Eth2 → Option String → Handling Key Eth2
  with_peer_id enr none = no_peer_id
  with_peer_id enr (some id) = handled (
      add_att "enr-info" enr (
        new_host_info lib.zero_time id ethereum_network (
          with_ip_and_ports lib.new_multiaddr lib.print_int (lib.ip_text enr.ip) (pos enr.tcp)
          ∷ [])))

  abbrev pub handle_parsed : EnrParse Key Eth2 → Handling Key Eth2
  handle_parsed enr_panics = panics
  handle_parsed (enr_refused e) = not_parsed e
  handle_parsed (enr_parsed enr) =
      if is_filtered enr then not_valid_node else with_peer_id enr (lib.get_peer_id enr.pubkey)

  unfoldable pub handle_enr : ℤ → Enode Key Eth2 → Handling Key Eth2
  handle_enr now node = handle_parsed (parse_enr now lib.zero_eth2 node)

-- A round of the loop: whether a shutdown is seen, the time, and the node that the iterator moves on to, if it does.
pub record Round (Key Eth2 : Type 0) : Type 0 where
  pub is_shutdown : Bool
  pub now : ℤ
  pub next : Option (Enode Key Eth2)

module _ {Key Eth2 : Type 0} (lib : Libraries Key Eth2) (filter_digest : List ℕ) where
  abbrev pub notify :
      Handling Key Eth2
      → List (HostInfo (EnrNode Key Eth2))
      → Option (List (HostInfo (EnrNode Key Eth2)))
  notify panics out = none
  notify (handled h) out = some (out ++ (h ∷ []))
  notify no_peer_id out = some out
  notify not_valid_node out = some out
  notify (not_parsed e) out = some out

  abbrev pub iterate :
      ℤ
      → Option (Enode Key Eth2)
      → List (HostInfo (EnrNode Key Eth2))
      → Option (List (HostInfo (EnrNode Key Eth2)))
  iterate now none out = some out
  iterate now (some node) out = notify (handle_enr lib filter_digest now node) out

  -- The hosts that are sent to the channel; `none` is a panic.
  unfoldable pub node_iterator :
      List (Round Key Eth2)
      → List (HostInfo (EnrNode Key Eth2))
      → Option (List (HostInfo (EnrNode Key Eth2)))
  node_iterator [] out = some out
  node_iterator (r ∷ rounds) out =
      if r.is_shutdown
      then some out
      else elim (iterate r.now r.next out) [ none ↦ none | some out' ↦ node_iterator rounds out' ]
