-- ===== src/Ethereum/Records.antt =====
-- pkg/networks/ethereum/enr.go, entries.go, utils.go, gossip_messages.go and gossip_handlers.go: what the records of the
-- nodes and the gossip messages are turned into. Bytes and texts are lists of numbers; what go-ethereum, zrnt and
-- snappy decode is an argument.
pub mod Bits
pub mod Subnets
use armiarma.Base.{
  ℕ, zero, suc, ◌+◌, ◌-◌, ◌*◌, ◌/◌, ◌%◌, ◌^◌, min, String, refl, sym, ap, inl, inr, Bool, true,
  false, not, ◌&&◌, Option, none, some, List, [], ◌∷◌, map, arith, eq_iff, eq_refl, str_eq, ltb,
  leb, ◌==◌, if◌then◌else◌, ltb→lt, lt→ltb, leb→le, ==_iff, Bool-cases, Option-cases, All, length,
  get_elem?, take, drop, length-append, length-take, length-drop, take-append-drop, Dict, lookup,
  insert, delete, lookup-insert, lookup-delete,
}
use mathlib.Core.Option
use armiarma.Base.Int.{ℤ, pos, negsuc, ◌-ℤ◌, ◌+ℤ◌, pos_part, neg_part, to_int64, saturate64}
use armiarma.Base.Text.{codes, is_prefix}
use armiarma.Base.Decimal.{is_digit, atoi}

-- `binary.BigEndian.Uint64`, which panics on fewer than eight bytes.
unfoldable pub big_endian_uint64 : List ℕ → Option ℕ
big_endian_uint64 (a ∷ (b ∷ (c ∷ (d ∷ (e ∷ (f ∷ (g ∷ (h ∷ bs)))))))) =
    some (h + 256 * (g + 256 * (f + 256 * (e + 256 * (d + 256 * (c + 256 * (b + 256 * a)))))))
big_endian_uint64 bs = none

-- `bits.OnesCount64`: the ones among so many binary digits.
unfoldable pub ones_count : ℕ → ℕ → ℕ
ones_count zero n = 0
ones_count (suc k) n = n % 2 + ones_count k (n / 2)

unfoldable pub count_bits : List ℕ → Option ℕ
count_bits bytes = Option.map (ones_count 64) (big_endian_uint64 bytes)

pub record Attnets : Type 0 where
  pub raw : List ℕ
  pub net_number : ℤ

abbrev pub counted_attnets : List ℕ → Option ℕ → Option Attnets
counted_attnets raw none = none
counted_attnets raw (some n) = some (record { raw = raw; net_number = pos n })

-- `ParseAttnets` of the bytes that are loaded from the node; `none` is a panic.
unfoldable pub parse_attnets : Option (List ℕ) → Option Attnets
parse_attnets none = some (record { raw = []; net_number = negsuc 0 })
parse_attnets (some raw) = counted_attnets raw (count_bits raw)

pub data EnrError : Type 0 where
  enr_validation_error eth2_data_parsing_error : EnrError

-- What go-ethereum gives of a node: whether it is complete, its fields, the entry `eth2`, which is absent or decoded or
-- not, and the entry `attnets`.
pub record Enode (Key Eth2 : Type 0) : Type 0 where
  pub complete : Bool
  pub id : List ℕ
  pub seq : ℕ
  pub ip : List ℕ
  pub udp : ℕ
  pub tcp : ℕ
  pub pubkey : Key
  pub eth2 : Option (Option Eth2)
  pub attnets : Option (List ℕ)

pub record EnrNode (Key Eth2 : Type 0) : Type 0 where
  pub timestamp : ℤ
  pub id : List ℕ
  pub ip : List ℕ
  pub seq : ℕ
  pub udp : ℕ
  pub tcp : ℕ
  pub pubkey : Key
  pub eth2_data : Eth2
  pub attnets : Attnets

pub data EnrParse (Key Eth2 : Type 0) : Type 0 where
  enr_panics : EnrParse Key Eth2
  enr_refused : EnrError → EnrParse Key Eth2
  enr_parsed : EnrNode Key Eth2 → EnrParse Key Eth2

module _ {Key Eth2 : Type 0} where
  abbrev pub fill_enr : ℤ → Enode Key Eth2 → Eth2 → Option Attnets → EnrParse Key Eth2
  fill_enr now node data_ none = enr_panics
  fill_enr now node data_ (some a) = enr_parsed (record {
    timestamp = now;
    id = node.id;
    ip = node.ip;
    seq = node.seq;
    udp = node.udp;
    tcp = node.tcp;
    pubkey = node.pubkey;
    eth2_data = data_;
    attnets = a;
  })

  -- The entry `eth2`; `zero_eth2` is the new one of a node that has none.
  abbrev pub parse_eth2 : ℤ → Eth2 → Enode Key Eth2 → Option (Option Eth2) → EnrParse Key Eth2
  parse_eth2 now zero_eth2 node none = fill_enr now node zero_eth2 (parse_attnets node.attnets)
  parse_eth2 now zero_eth2 node (some none) = enr_refused eth2_data_parsing_error
  parse_eth2 now zero_eth2 node (some (some e)) = fill_enr now node e (parse_attnets node.attnets)

  unfoldable pub parse_enr : ℤ → Eth2 → Enode Key Eth2 → EnrParse Key Eth2
  parse_enr now zero_eth2 node =
      if node.complete
      then parse_eth2 now zero_eth2 node node.eth2
      else enr_refused enr_validation_error

-- The time since the slot began; a slot and a duration are int64, a time the integer of its nanoseconds.
abbrev pub seconds_per_slot : ℕ
seconds_per_slot = 12 * 1000000000

unfoldable pub slot_duration : ℤ → ℤ
slot_duration slot =
    to_int64
      (pos_part slot * seconds_per_slot + (2 ^ 64 - neg_part slot * seconds_per_slot % 2 ^ 64))

unfoldable pub get_time_in_slot : ℤ → ℤ → ℤ → ℤ
get_time_in_slot genesis arrival_time slot =
    saturate64 (arrival_time -ℤ (genesis +ℤ slot_duration slot))

-- The longest run of digits at the front.
unfoldable pub digits_front : List ℕ → List ℕ
digits_front [] = []
digits_front (c ∷ s) = let rest = digits_front s in if is_digit c then (c ∷ rest) else []

abbrev pub attestation_mark : List ℕ
attestation_mark = codes "attestation_"

-- The digits of the first match of `attestation_([0-9]+)`.
unfoldable pub first_subnet : List ℕ → List ℕ
first_subnet [] = []
first_subnet (c ∷ s) =
    let rest = first_subnet s in
    let digits = digits_front (drop (length attestation_mark) (c ∷ s)) in
    if is_prefix attestation_mark (c ∷ s) && ltb 0 (length digits) then digits else rest

pub data SubnetError : Type 0 where
  no_subnet not_parsable_subnet : SubnetError

unfoldable pub get_subnet_from_topic : List ℕ → ℤ × Option SubnetError
get_subnet_from_topic topic =
    let digits = first_subnet topic in
    let (n, ok) = atoi digits in
    if length digits == 0
    then (negsuc 0, some no_subnet)
    else if ok
    then (n, none)
    else (negsuc 0, some not_parsable_subnet)

pub record GossipMessage : Type 0 where
  pub id : String
  pub topic : List ℕ
  pub payload : List ℕ
  pub received_from : String
  pub arrival_time : ℤ

pub record TrackedAttestation : Type 0 where
  pub msg_id : String
  pub sender : String
  pub subnet : ℤ
  pub arrival_time : ℤ
  pub time_in_slot : ℤ
  pub val_pubkey : String
  pub slot : ℤ

pub record TrackedBeaconBlock : Type 0 where
  pub msg_id : String
  pub sender : String
  pub arrival_time : ℤ
  pub time_in_slot : ℤ
  pub val_index : ℤ
  pub slot : ℤ

-- `snappy_decode` decompresses, the others read the slot, or the slot and the proposer, as uint64.
module _ (snappy_decode : List ℕ → Option (List ℕ)) (attestation_slot : List ℕ → Option ℕ)
    (block_slot : List ℕ → Option (ℕ × ℕ)) (genesis : ℤ) where
  abbrev pub track_attestation :
      GossipMessage → Option ℕ → ℤ × Option SubnetError → Option TrackedAttestation
  track_attestation msg none r = none
  track_attestation msg (some slot) (subnet, some e) = none
  track_attestation msg (some slot) (subnet, none) = some (record {
    msg_id = msg.id;
    sender = msg.received_from;
    subnet = subnet;
    arrival_time = msg.arrival_time;
    time_in_slot = get_time_in_slot genesis msg.arrival_time (to_int64 slot);
    val_pubkey = "";
    slot = to_int64 slot;
  })

  -- The attestation, or `none` for an error.
  unfoldable pub subnet_message_handler : GossipMessage → Option TrackedAttestation
  subnet_message_handler msg =
      track_attestation msg (Option.bind (snappy_decode msg.payload) attestation_slot)
        (get_subnet_from_topic msg.topic)

  abbrev pub track_block : GossipMessage → Option (ℕ × ℕ) → Option TrackedBeaconBlock
  track_block msg none = none
  track_block msg (some (slot, proposer)) = some (record {
    msg_id = msg.id;
    sender = msg.received_from;
    arrival_time = msg.arrival_time;
    time_in_slot = get_time_in_slot genesis msg.arrival_time (to_int64 slot);
    val_index = to_int64 proposer;
    slot = to_int64 slot;
  })

  unfoldable pub beacon_block_message_handler : GossipMessage → Option TrackedBeaconBlock
  beacon_block_message_handler msg =
      track_block msg (Option.bind (snappy_decode msg.payload) block_slot)
