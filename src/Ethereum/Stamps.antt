-- ===== src/Ethereum/Stamps.antt =====
-- pkg/networks/ethereum/eth_node_metadata.go: a status or metadata with the peer that sent it and the time, and a status from what the database
-- has of it. The parsers of a peer id and of a fork digest, and the decoding of a root, whose capacity
-- is the library's, are arguments.
use armiarma.Base.{
  ℕ, ◌+◌, ◌-◌, ◌%◌, ◌^◌, String, Bool, true, false, Option, none, some, List, [], ◌∷◌, ◌==◌,
  if◌then◌else◌, drop,
}
use armiarma.Base.Int.{ℤ, pos, negsuc, pos_part, neg_part}
use armiarma.Base.Text.{codes, is_prefix}
use armiarma.Ethereum.Node.{Status, zero_status}

pub record Stamped (A : Type 0) : Type 0 where
  pub timestamp : ℤ
  pub peer_id : String
  pub content : A

abbrev pub is_zero_time : ℤ → Bool
is_zero_time (pos n) = n == 0
is_zero_time (negsuc n) = false

module _ {A : Type 0} where
  -- `NewBeaconMetadata` and `NewBeaconStatus`
  unfoldable pub new_stamped : ℤ → String → A → Stamped A
  new_stamped now peer_id content = record { timestamp = now; peer_id = peer_id; content = content }

  -- `IsEmpty`
  unfoldable pub is_empty_stamped : Stamped A → Bool
  is_empty_stamped b = is_zero_time b.timestamp

-- `strings.Replace(s, "0x", "", 1)`; a text without it stays.
unfoldable pub without_0x : List ℕ → List ℕ
without_0x [] = []
without_0x (c ∷ s) =
    let rest = without_0x s in if is_prefix (codes "0x") (c ∷ s) then drop 2 (c ∷ s) else c ∷ rest

-- What becomes of the text of a root: `hex.DecodeString`, and the slice of the first 32 bytes, which panics when the capacity of
-- what was decoded is below 32.
pub data RootRead : Type 0 where
  not_hex too_short : RootRead
  read_root : ℕ → RootRead

-- `uint64` of an int64.
abbrev pub to_uint64 : ℤ → ℕ
to_uint64 n = (pos_part n + (2 ^ 64 - neg_part n)) % 2 ^ 64

module _ (decode_id : String → Option String) (unmarshal_text : List ℕ → Option ℕ)
    (decode_root : List ℕ → RootRead) where
  abbrev pub with_head : Stamped Status → RootRead → ℤ → Option (Stamped Status × Bool)
  with_head b not_hex slot = some (b, false)
  with_head b too_short slot = none
  with_head b (read_root r) slot =
      some (
        record b { content = record b.content { head_root = r; head_slot = to_uint64 slot } },
        true,
      )

  abbrev pub with_finalized :
      Stamped Status → RootRead → ℤ → RootRead → ℤ → Option (Stamped Status × Bool)
  with_finalized b not_hex epoch head slot = some (b, false)
  with_finalized b too_short epoch head slot = none
  with_finalized b (read_root r) epoch head slot =
      with_head
        (record b {
          content = record b.content { finalized_root = r; finalized_epoch = to_uint64 epoch };
        })
        head slot

  -- The status and whether there is no error, or a panic.
  unfoldable pub parse_beacon_status_from_basic_types :
      ℤ → String → List ℕ → List ℕ → ℤ → List ℕ → ℤ → Option (Stamped Status × Bool)
  parse_beacon_status_from_basic_types t id digest final_root final_epoch head_root head_slot =
      let fresh : Stamped Status = record { timestamp = t; peer_id = ""; content = zero_status } in
      elim (decode_id id) [
        | none ↦ some (fresh, false)
        | some peer ↦ elim (unmarshal_text digest) [
          | none ↦ some (record fresh { peer_id = peer }, false)
          | some d ↦
              with_finalized
                (record fresh { peer_id = peer; content = record zero_status { fork_digest = d } })
                (decode_root (without_0x final_root)) final_epoch
                (decode_root (without_0x head_root)) head_slot
        ]
      ]
