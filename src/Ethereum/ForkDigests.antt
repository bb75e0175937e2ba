-- ===== src/Ethereum/ForkDigests.antt =====
-- The fork digests of pkg/networks/ethereum/network_info.go and `CheckValidForkDigest`. A text is a list of code points. The order in which
-- Go visits the entries of the map is an argument.
pub mod Accepted
use armiarma.Base.{
  ℕ, zero, suc, ◌+◌, ◌%◌, String, Bool, true, false, ◌&&◌, ◌||◌, Option, none, some, List, [], ◌∷◌,
  map, leb, ◌==◌, if◌then◌else◌, length,
}
use armiarma.Base.Text.{codes}
use armiarma.Utils.UserAgent.{to_lower}

abbrev pub Digests : Type 0
Digests = List (List ℕ × List ℕ)

-- The keys and the digests.
abbrev pub fork_digests : Digests
fork_digests =
    (codes "All", codes "all")
    ∷ (codes "Mainnet", codes "0xb5303f2a")
    ∷ (codes "Altair", codes "0xafcaaba0")
    ∷ (codes "Bellatrix", codes "0x4a26c58b")
    ∷ (codes "Capella", codes "0xbba4da96")
    ∷ (codes "GnosisPhase0", codes "0xf925ddc5")
    ∷ (codes "Gnosisbellatrix", codes "0x56fdb5e0")
    ∷ (codes "PraterPhase0", codes "0x79df0428")
    ∷ (codes "PraterBellatrix", codes "0xc2ce3aa8")
    ∷ (codes "PraterCapella", codes "0x628941ef")
    ∷ (codes "SepoliaCapella", codes "0x47eb72b3")
    ∷ (codes "HoleskyCapella", codes "0x17e2dad3")
    ∷ (codes "DenebCancun", codes "0xee7b3a32")
    ∷ []

-- `==` on texts.
unfoldable pub text_eq : List ℕ → List ℕ → Bool
text_eq [] [] = true
text_eq (a ∷ s) (b ∷ t) = a == b && text_eq s t
text_eq s t = false

-- `ForkDigests[key]`; a key that is missing gives the empty text.
unfoldable pub digest_of : List ℕ → Digests → List ℕ
digest_of key [] = []
digest_of key ((k, v) ∷ rest) = if text_eq k key then v else digest_of key rest

-- `hex.DecodeString`: whether it decodes, and to how many bytes.
unfoldable pub is_hex : ℕ → Bool
is_hex c = (leb 48 c && leb c 57) || ((leb 97 c && leb c 102) || (leb 65 c && leb c 70))

unfoldable pub decode_string : List ℕ → Option ℕ
decode_string [] = some 0
decode_string (c ∷ []) = none
decode_string (c ∷ (d ∷ s)) = elim (decode_string s) [
  | none ↦ none
  | some n ↦ if is_hex c && is_hex d then some (suc n) else none
]

-- The loop over the entries, in their order.
unfoldable pub find_digest : Digests → List ℕ → Option (List ℕ)
find_digest [] s = none
find_digest ((key, digest) ∷ rest) s =
    if text_eq (map to_lower key) s
    then some (digest_of (map to_lower key) fork_digests)
    else if text_eq digest s
    then some digest
    else find_digest rest s

-- A digest that is not in the table: four bytes in hexadecimal.
unfoldable pub four_bytes : List ℕ → List ℕ × Bool
four_bytes s = elim (decode_string s) [
  | none ↦ ([], false)
  | some n ↦ if n == 4 then (s, true) else ([], false)
]

unfoldable pub check_valid_fork_digest : (Digests → Digests) → List ℕ → List ℕ × Bool
check_valid_fork_digest order s = elim (find_digest (order fork_digests) s) [
  | some digest ↦ (digest, true)
  | none ↦ four_bytes s
]
