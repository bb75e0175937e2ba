-- ===== src/Ethereum/Topics.antt =====
-- pkg/networks/ethereum/network_info.go: the names of the gossip topics. A text is the list of its code points, which
-- are its bytes here.
pub mod Names
use armiarma.Base.{
  ℕ, zero, suc, ◌+◌, ◌-◌, ◌/◌, ◌%◌, min, String, refl, sym, ap, inl, inr, Bool, true, false, not,
  ◌||◌, Option, none, some, List, [], ◌∷◌, ◌++◌, map, arith, eq_iff, eq_refl, str_eq, ltb, leb,
  ◌==◌, if◌then◌else◌, ltb→lt, lt→ltb, leb→le, ==_iff, Bool-cases, Option-cases, All, length,
  get_elem?, take, drop, length-append, length-take, length-drop, take-append-drop, Dict, lookup,
  insert, delete, lookup-insert, lookup-delete,
}
use armiarma.Base.Int.{ℤ, pos, leb_ℤ, ltb_ℤ, pos_part}
use armiarma.Base.Text.{codes, is_prefix}

abbrev pub fork_digest_prefix : List ℕ
fork_digest_prefix = codes "0x"

abbrev pub blockchain_name : List ℕ
blockchain_name = codes "eth2"

abbrev pub encoding : List ℕ
encoding = codes "ssz_snappy"

abbrev pub subnet_limit : ℕ
subnet_limit = 64

abbrev pub attestation_topic_base : List ℕ
attestation_topic_base = codes "beacon_attestation_{__subnet_id__}"

abbrev pub message_types : List (List ℕ)
message_types =
    codes "beacon_block"
    ∷ codes "beacon_aggregate_and_proof"
    ∷ codes "voluntary_exit"
    ∷ codes "proposer_slashing"
    ∷ codes "attester_slashing"
    ∷ []

abbrev pub slash : ℕ
slash = 47

unfoldable pub in_cutset : ℕ → List ℕ → Bool
in_cutset c [] = false
in_cutset c (x ∷ xs) = c == x || in_cutset c xs

-- `strings.Trim(s, cutset)`
unfoldable pub trim_left : List ℕ → List ℕ → List ℕ
trim_left cut [] = []
trim_left cut (c ∷ s) = let rest = trim_left cut s in if in_cutset c cut then rest else c ∷ s

abbrev pub trim_end : List ℕ → ℕ → List ℕ → List ℕ
trim_end cut c [] = if in_cutset c cut then [] else c ∷ []
trim_end cut c (x ∷ xs) = c ∷ x ∷ xs

unfoldable pub trim_right : List ℕ → List ℕ → List ℕ
trim_right cut [] = []
trim_right cut (c ∷ s) = trim_end cut c (trim_right cut s)

unfoldable pub trim : List ℕ → List ℕ → List ℕ
trim s cut = trim_right cut (trim_left cut s)

-- `strings.Replace(s, old, new, -1)`: the first argument is what is left to skip of an occurrence.
unfoldable pub replace_all : ℕ → List ℕ → List ℕ → List ℕ → List ℕ
replace_all skip old new [] = []
replace_all (suc k) old new (c ∷ s) = replace_all k old new s
replace_all zero old new (c ∷ s) =
    let found = new ++ replace_all (length old - 1) old new s in
    let rest = c ∷ replace_all 0 old new s in if is_prefix old (c ∷ s) then found else rest

-- `fmt.Sprintf("%d", n)` of a number below 100, as all that reach it are.
unfoldable pub decimal : ℕ → List ℕ
decimal n = if ltb n 10 then (48 + n) ∷ [] else (48 + n / 10) ∷ (48 + n % 10) ∷ []

-- `"/" + BlockchainName + "/" + forkDigest + "/" + name + "/" + Encoding`
unfoldable pub join_topic : List ℕ → List ℕ → List ℕ
join_topic digest name =
    slash ∷ blockchain_name ++ (slash ∷ digest ++ (slash ∷ name ++ (slash ∷ encoding)))

unfoldable pub compose_topic : List ℕ → List ℕ → List ℕ
compose_topic fork_digest message_type =
    join_topic (trim fork_digest fork_digest_prefix) message_type

unfoldable pub subnet_name : ℕ → List ℕ
subnet_name n = replace_all 0 (codes "{__subnet_id__}") (decimal n) attestation_topic_base

unfoldable pub compose_attnets_topic : List ℕ → ℤ → List ℕ
compose_attnets_topic fork_digest subnet =
    if ltb_ℤ (pos subnet_limit) subnet || leb_ℤ subnet (pos 0)
    then []
    else join_topic (trim fork_digest (codes "0x")) (subnet_name (pos_part subnet))

-- `strings.Split(s, "/")`: a piece is never empty of pieces.
abbrev pub grow : ℕ → List (List ℕ) → List (List ℕ)
grow c [] = (c ∷ []) ∷ []
grow c (p ∷ ps) = (c ∷ p) ∷ ps

unfoldable pub split : List ℕ → List (List ℕ)
split [] = [] ∷ []
split (c ∷ s) = let ps = split s in if c == slash then [] ∷ ps else grow c ps

-- The index out of range is `none`.
unfoldable pub eth2_topic_pretty : List ℕ → Option (List ℕ)
eth2_topic_pretty topic = get_elem? (split topic) 3

unfoldable pub compose_topics : List ℕ → List (List ℕ) → List (List ℕ)
compose_topics fork_digest [] = []
compose_topics fork_digest (t ∷ ts) = compose_topic fork_digest t ∷ compose_topics fork_digest ts

unfoldable pub return_all_topics : List ℕ → List (List ℕ)
return_all_topics fork_digest = compose_topics fork_digest message_types
