-- ===== src/Utils/UserAgent.antt =====
-- pkg/utils/useragent.go: the client, its version, its operating system and its architecture, from a user agent, which
-- is the list of its code points. A Go map is the list of its entries in the order in which `range` meets them.
pub mod Version
use mathlib.Core.Option
use armiarma.Base.{
  ℕ, zero, suc, ◌+◌, min, String, refl, sym, ap, inl, inr, Bool, true, false, not, ◌&&◌, ◌||◌,
  Option, none, some, List, [], ◌∷◌, map, arith, eq_iff, eq_refl, str_eq, ltb, leb, ◌==◌,
  if◌then◌else◌, ltb→lt, lt→ltb, leb→le, ==_iff, Bool-cases, Option-cases, All, length, get_elem?,
  take, drop, length-append, length-take, length-drop, take-append-drop, Dict, lookup, insert,
  delete, lookup-insert, lookup-delete,
}
use armiarma.Base.Text.{codes, contains}

pub data NetworkType : Type 0 where
  ethereum_network ipfs_network filecoin_network other_network : NetworkType

-- A name with the texts that stand for it.
abbrev pub Table : Type 0
Table = List (String × List String)

abbrev pub unknown : String
unknown = "unknown"

abbrev pub eth_cl_clients : Table
eth_cl_clients =
    ("prysm", "prysm" ∷ [])
    ∷ ("lighthouse", "lighthouse" ∷ [])
    ∷ ("teku", "teku" ∷ [])
    ∷ ("nimbus", "nimbus" ∷ "nim-libp2p" ∷ [])
    ∷ ("lodestar", "lodestar" ∷ "js-libp2p" ∷ [])
    ∷ ("grandine", "grandine" ∷ "rust-libp2p" ∷ [])
    ∷ ("cortze", "cortex" ∷ [])
    ∷ ("trinity", "trinity" ∷ [])
    ∷ ("erigon", "erigon" ∷ "erigon/lightclient" ∷ [])
    ∷ []

abbrev pub ipfs_clients : Table
ipfs_clients =
    ("kubo", "kubo" ∷ [])
    ∷ ("go-ipfs", "go-ipfs" ∷ [])
    ∷ ("hydra-booster", "hydra-booster" ∷ [])
    ∷ ("storm", "storm" ∷ [])
    ∷ ("ioi", "ioi" ∷ [])
    ∷ ("punchr", "punchr" ∷ [])
    ∷ []

abbrev pub filecoin_clients : Table
filecoin_clients = ("lotus", "lotus" ∷ []) ∷ []

abbrev pub valid_os : Table
valid_os =
    ("mac", "macos" ∷ "freebsd" ∷ [])
    ∷ ("windows", "win" ∷ "windows" ∷ [])
    ∷ ("linux", "linux" ∷ "ubuntu" ∷ [])
    ∷ []

abbrev pub valid_archs : Table
valid_archs = ("arm", "aarch64" ∷ "aarch" ∷ "aarch_64" ∷ []) ∷ ("x86_64", "x86_64" ∷ []) ∷ []

-- `unicode.ToLower`, as far as the result is an ASCII letter: the capitals, the dotted I and the Kelvin sign.
unfoldable pub to_lower : ℕ → ℕ
to_lower c =
    if leb 65 c && leb c 90 then c + 32 else if c == 304 then 105 else if c == 8490 then 107 else c

unfoldable pub str_contains_lower_caps : List ℕ → List ℕ → Bool
str_contains_lower_caps s sub_str = contains (map to_lower s) (map to_lower sub_str)

-- The inner loop of the three parsers, which stops at a text that occurs.
unfoldable pub mentions : List ℕ → List String → Bool
mentions s [] = false
mentions s (sub ∷ subs) = str_contains_lower_caps s (codes sub) || mentions s subs

-- `ClientNameParser`, `ClientOSParser` and `ClientArchParser`.
unfoldable pub client_name_parser : Table → List ℕ → String
client_name_parser [] s = unknown
client_name_parser ((name, subs) ∷ valid_names) s =
    if mentions s subs then name else client_name_parser valid_names s

-- `strings.Split` at a character: the first field and the others.
unfoldable pub split : ℕ → List ℕ → List ℕ × List (List ℕ)
split sep [] = ([], [])
split sep (c ∷ s) =
    let (field, fields) = split sep s in
    if c == sep then ([], field ∷ fields) else (c ∷ field, fields)

-- `getVersionIfAny`, at an index from 1 on.
unfoldable pub get_version_if_any : List (List ℕ) → ℕ → List ℕ
get_version_if_any fields zero = codes unknown
get_version_if_any [] (suc i) = codes unknown
get_version_if_any (field ∷ fields) (suc zero) = field
get_version_if_any (field ∷ fields) (suc (suc i)) = get_version_if_any fields (suc i)

unfoldable pub clean_version : List ℕ → List ℕ
clean_version version = (split 45 (split 43 version).0).0

-- `none` is a panic, where there is no second field.
unfoldable pub clean_version_lotus : List ℕ → Option (List ℕ)
clean_version_lotus version = get_elem? (split 45 (split 43 version).0).1 0

unfoldable pub is_one_of : String → List String → Bool
is_one_of name [] = false
is_one_of name (n ∷ names) = str_eq name n || is_one_of name names

pub record ClientType : Type 0 where
  pub cli_name : String
  pub cli_version : List ℕ
  pub cli_os : String
  pub cli_arch : String

abbrev pub eth_version : String → List (List ℕ) → List ℕ
eth_version client fields =
    if is_one_of client (
      "prysm" ∷ "lighthouse" ∷ "lodestar" ∷ "grandine" ∷ "nimbus" ∷ "cortze" ∷ "trinity" ∷ "erigon"
      ∷ [])
    then clean_version (get_version_if_any fields 1)
    else if str_eq client "teku"
    then clean_version (get_version_if_any fields 2)
    else codes unknown

abbrev pub ipfs_version : String → List (List ℕ) → List ℕ
ipfs_version client fields =
    if is_one_of client ("go-ipfs" ∷ "kubo" ∷ "ioi" ∷ "storm" ∷ "hydra-booster" ∷ [])
    then clean_version (get_version_if_any fields 1)
    else codes unknown

abbrev pub lotus_version : String → List ℕ → Option (List ℕ)
lotus_version client field =
    if str_eq client "lotus"
    then Option.map clean_version (clean_version_lotus field)
    else some (codes unknown)

-- `order` lists the entries of a map as a loop over it meets them.
module _ (order : Table → Table) where
  unfoldable pub client_and_version :
      NetworkType → List ℕ × List (List ℕ) → Option (String × List ℕ)
  client_and_version ethereum_network (name, fields) =
      let client = client_name_parser (order eth_cl_clients) name in
      some (client, eth_version client fields)
  client_and_version ipfs_network (name, fields) =
      let client = client_name_parser (order ipfs_clients) name in
      some (client, ipfs_version client fields)
  client_and_version filecoin_network (name, fields) =
      let client = client_name_parser (order filecoin_clients) name in
      Option.map (λ v. (client, v)) (lotus_version client name)
  client_and_version other_network (name, fields) = some ("", [])

  -- The result, or a panic.
  unfoldable pub parse_client_type : NetworkType → List ℕ → Option ClientType
  parse_client_type network user_agent =
      Option.map
        (λ (client, version). record {
          cli_name = client;
          cli_version = version;
          cli_os = client_name_parser (order valid_os) user_agent;
          cli_arch = client_name_parser (order valid_archs) user_agent;
        })
        (client_and_version network (split 47 user_agent))
