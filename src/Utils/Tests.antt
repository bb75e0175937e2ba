-- ===== src/Utils/Tests.antt =====
-- User agents.
use armiarma.Base.{ℕ, ◌≡◌, refl, ◌↔◌, true, false, none, List, [], ◌∷◌}
use armiarma.Base.Text.{codes, contains, is_prefix}
use armiarma.Utils.UserAgent.{
  Table, filecoin_network, parse_client_type, client_name_parser, mentions, to_lower, valid_os,
  str_contains_lower_caps,
}
use armiarma.Utils.UserAgent.Version.{before, occurs, parse_client_type-panics}

abbrev lighthouse : List ℕ
lighthouse = codes "Lighthouse/v1.5.1-b0ac346/x86_64-linux"

-- The order of the source.
abbrev as_written : Table → Table
as_written t = t

abbrev swapped : Table → Table
swapped [] = []
swapped (a ∷ []) = a ∷ []
swapped (a ∷ (b ∷ t)) = b ∷ (a ∷ t)

parse_client_type-panics_example :
    (parse_client_type as_written filecoin_network (codes "Lotus+mainnet") ≡ none) ↔ (
      (filecoin_network ≡ filecoin_network)
      × (str_contains_lower_caps (before 47 (codes "Lotus+mainnet")) (codes "lotus") ≡ true)
      × (occurs 45 (before 43 (before 47 (codes "Lotus+mainnet"))) ≡ false))
parse_client_type-panics_example =
    parse_client_type-panics as_written filecoin_network (codes "Lotus+mainnet") refl

-- "win" stands in "darwin", and a Mac is taken for Windows.
darwin : client_name_parser valid_os (codes "erigon/v2/darwin-arm64") ≡ "windows"
unfolding client_name_parser mentions str_contains_lower_caps to_lower contains is_prefix
darwin = refl
