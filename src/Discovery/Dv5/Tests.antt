-- ===== src/Discovery/Dv5/Tests.antt =====
-- A few nodes that discv5 finds, and a configuration with the name of a fork.
use armiarma.Base.{ℕ, ◌≡◌, refl, true, false, Option, none, some, String, List, [], ◌∷◌, ◌++◌}
use armiarma.Base.Int.{pos}
use armiarma.Base.Text.{codes, is_prefix}
use armiarma.Base.Decimal.{atoi, read_digits, is_digit}
use armiarma.Utils.UserAgent.{to_lower}
use armiarma.Models.HostInfo.{HostInfo}
use armiarma.Ethereum.Records.{Enode, EnrNode, parse_enr, parse_attnets}
use armiarma.Ethereum.ForkDigests.{digest_of, text_eq, find_digest, check_valid_fork_digest}
use armiarma.Config.{
  EthereumCrawlerConfig, Flags, apply, add_subnets, new_ethereum_crawler_config, given_subnets,
}
use armiarma.Discovery.Dv5.{Libraries, Round, is_filtered, handle_enr, node_iterator}
use armiarma.Discovery.Dv5.Filter.{Adds, node_iterator-Adds}
use armiarma.Discovery.Dv5.Flag.{node_iterator-apply}

-- An entry `eth2` is the digits of its fork digest.
abbrev libraries : Libraries ℕ (List ℕ)
libraries = record {
  zero_time = pos 0;
  zero_eth2 = [];
  fork_digest_text = λ e. codes "0x" ++ e;
  get_peer_id = λ k. some "16Uiu2";
  ip_text = λ ip. ip;
  new_multiaddr = λ m. some m;
  print_int = λ n. [];
}

abbrev node_with : List ℕ → Enode ℕ (List ℕ)
node_with digest = record {
  complete = true;
  id = 1 ∷ [];
  seq = 4;
  ip = 49 ∷ [];
  udp = 9000;
  tcp = 9000;
  pubkey = 7;
  eth2 = some (some digest);
  attnets = none;
}

abbrev round_with : List ℕ → Round ℕ (List ℕ)
round_with digest = record { is_shutdown = false; now = pos 5; next = some (node_with digest) }

-- A node of the chain, one of another chain, and the shutdown.
abbrev rounds : List (Round ℕ (List ℕ))
rounds =
    round_with (codes "bba4da96")
    ∷ round_with (codes "628941ef")
    ∷ record (round_with []) { is_shutdown = true }
    ∷ []

abbrev found : List ℕ → List (HostInfo (EnrNode ℕ (List ℕ)))
found digest = elim (node_iterator libraries digest rounds []) [ none ↦ [] | some out ↦ out ]

runs : node_iterator libraries (codes "0xbba4da96") rounds [] ≡ some (found (codes "0xbba4da96"))
unfolding node_iterator is_filtered handle_enr parse_enr parse_attnets text_eq digest_of
runs = refl

node_iterator-Adds_example :
    Adds libraries (codes "0xbba4da96") rounds [] (found (codes "0xbba4da96"))
node_iterator-Adds_example =
    node_iterator-Adds libraries (codes "0xbba4da96") rounds [] (found (codes "0xbba4da96")) runs

abbrev same_order : List (List ℕ × List ℕ) → List (List ℕ × List ℕ)
same_order ds = ds

abbrev nothing_fetched : String → Option (List ℕ)
nothing_fetched endpoint = none

abbrev no_file : String → Option (List String)
no_file path = none

abbrev mainnet_flag : Flags
mainnet_flag = record {
  set_log_level = none;
  set_priv_key = none;
  set_ip = none;
  set_port = some (pos 70000);
  set_metrics_ip = none;
  set_metrics_port = none;
  set_user_agent = none;
  set_fork_digest = some (codes "mainnet");
  set_remote_cl_endpoint = none;
  set_psql_endpoint = none;
  set_peers_backup = none;
  set_bootnode = none;
  set_gossip_topic = none;
  set_subnet = some (codes "3" ∷ codes "all" ∷ []);
  set_persist_conn_events = none;
  set_persist_msgs = none;
  set_val_pubkeys = none;
}

abbrev config : EthereumCrawlerConfig
config =
    elim (apply same_order nothing_fetched no_file mainnet_flag (new_ethereum_crawler_config [])) [
      | none ↦ new_ethereum_crawler_config []
      | some c ↦ c
    ]

config_applied :
    apply same_order nothing_fetched no_file mainnet_flag (new_ethereum_crawler_config [])
    ≡ some config
unfolding apply given_subnets add_subnets text_eq atoi read_digits is_digit
config_applied = refl

mainnet_accepted : (check_valid_fork_digest same_order (codes "mainnet")).1 ≡ true
unfolding check_valid_fork_digest find_digest text_eq digest_of to_lower
mainnet_accepted = refl

has_prefix : (e : List ℕ) → is_prefix (codes "0x") (codes "0x" ++ e) ≡ true
unfolding is_prefix
has_prefix e = refl

bare : is_prefix (codes "0x") (codes "mainnet") ≡ false
unfolding is_prefix
bare = refl

runs_unseen : node_iterator libraries config.fork_digest rounds [] ≡ some (found config.fork_digest)
unfolding node_iterator is_filtered handle_enr parse_enr parse_attnets text_eq digest_of apply
    given_subnets add_subnets atoi read_digits is_digit check_valid_fork_digest find_digest to_lower
runs_unseen = refl

node_iterator-apply_example : found config.fork_digest ≡ []
node_iterator-apply_example =
    node_iterator-apply libraries same_order nothing_fetched no_file mainnet_flag
      (new_ethereum_crawler_config []) config (codes "mainnet") rounds (found config.fork_digest)
      (λ p h. h) has_prefix refl refl mainnet_accepted bare config_applied runs_unseen
