-- ===== src/Utils/Addresses.antt =====
-- pkg/utils/multiaddress.go: what an address says of its IP and port. A text is the list of its code points, a
-- multiaddress the text that its `String` gives, or nil. Texts with a colon are parsed by a parameter.
pub mod Texts
use armiarma.Base.{
  ℕ, zero, suc, ◌+◌, ◌/◌, ◌%◌, min, String, refl, sym, ap, inl, inr, Bool, true, false, not, ◌&&◌,
  ◌||◌, Option, none, some, List, [], ◌∷◌, ◌++◌, map, arith, eq_iff, eq_refl, str_eq, ltb, leb,
  ◌==◌, if◌then◌else◌, ltb→lt, lt→ltb, leb→le, ==_iff, Bool-cases, Option-cases, All, length,
  get_elem?, take, drop, length-append, length-take, length-drop, take-append-drop, Dict, lookup,
  insert, delete, lookup-insert, lookup-delete,
}
use armiarma.Base.Int.{ℤ, pos, negsuc}
use armiarma.Base.Text.{codes}
use armiarma.Base.Decimal.{atoi, digits_of, Digits, value, bad_syntax, out_of_range}
use armiarma.Utils.UserAgent.{split}

-- `net.IP`: nil, an IPv4 address or the 16 bytes of another.
pub data Ip : Type 0 where
  nil_ip : Ip
  ip4 : ℕ → ℕ → ℕ → ℕ → Ip
  ip6 : List ℕ → Ip

-- The first of the two separators of addresses.
pub data Separator : Type 0 where
  dot colon neither : Separator

unfoldable pub first_separator : List ℕ → Separator
first_separator [] = neither
first_separator (c ∷ s) = if c == 46 then dot else if c == 58 then colon else first_separator s

unfoldable pub leading_zero : List ℕ → Bool
leading_zero [] = false
leading_zero (c ∷ []) = false
leading_zero (c ∷ (d ∷ s)) = c == 48

-- A number up to 255 without a leading zero.
abbrev pub octet : List ℕ → Digits → Option ℕ
octet s (value n) = if leb n 255 && not (leading_zero s) then some n else none
octet s bad_syntax = none
octet s out_of_range = none

unfoldable pub parse_octet : List ℕ → Option ℕ
parse_octet s = octet s (digits_of s)

abbrev pub four : Option ℕ → Option ℕ → Option ℕ → Option ℕ → Ip
four (some a) (some b) (some c) (some d) = ip4 a b c d
four a b c d = nil_ip

abbrev pub four_fields : List ℕ × List (List ℕ) → Ip
four_fields (a, (b ∷ (c ∷ (d ∷ [])))) =
    four (parse_octet a) (parse_octet b) (parse_octet c) (parse_octet d)
four_fields (a, fs) = nil_ip

unfoldable pub parse_ipv4 : List ℕ → Ip
parse_ipv4 s = four_fields (split 46 s)

-- `ip.IsLoopback()` and `ip.IsUnspecified()`
abbrev pub are_zero : List ℕ → Bool
are_zero [] = true
are_zero (b ∷ bs) = b == 0 && are_zero bs

abbrev pub is_one : List ℕ → Bool
is_one [] = false
is_one (b ∷ []) = b == 1
is_one (b ∷ (c ∷ bs)) = b == 0 && is_one (c ∷ bs)

unfoldable pub is_loopback : Ip → Bool
is_loopback nil_ip = false
is_loopback (ip4 a b c d) = a == 127
is_loopback (ip6 bs) = is_one bs

unfoldable pub is_unspecified : Ip → Bool
is_unspecified nil_ip = false
is_unspecified (ip4 a b c d) = a == 0 && (b == 0 && (c == 0 && d == 0))
is_unspecified (ip6 bs) = are_zero bs

-- Whether one of `PrivateIPNetworks` contains the address.
unfoldable pub in_private_network : Ip → Bool
in_private_network nil_ip = false
in_private_network (ip4 a b c d) = a == 10 || ((a == 172 && b / 16 == 1) || (a == 192 && b == 168))
in_private_network (ip6 bs) = false

unfoldable pub is_ip_public : Ip → Bool
is_ip_public ip = not (in_private_network ip || (is_loopback ip || is_unspecified ip))

-- The decimal digits of a byte.
unfoldable pub print_byte : ℕ → List ℕ
print_byte n =
    if ltb n 10
    then (48 + n) ∷ []
    else if ltb n 100
    then (48 + n / 10) ∷ (48 + n % 10) ∷ []
    else (48 + n / 100) ∷ (48 + n / 10 % 10) ∷ (48 + n % 10) ∷ []

module _ (parse_ipv6 : List ℕ → Ip) (print_ipv6 : List ℕ → List ℕ) where
  abbrev pub parse_by : Separator → List ℕ → Ip
  parse_by dot s = parse_ipv4 s
  parse_by colon s = parse_ipv6 s
  parse_by neither s = nil_ip

  -- `net.ParseIP`
  unfoldable pub parse_ip : List ℕ → Ip
  parse_ip s = parse_by (first_separator s) s

  -- `ip.String()`
  unfoldable pub ip_string : Ip → List ℕ
  ip_string nil_ip = codes "<nil>"
  ip_string (ip4 a b c d) =
      print_byte a ++ (46 ∷ (print_byte b ++ (46 ∷ (print_byte c ++ (46 ∷ print_byte d)))))
  ip_string (ip6 bs) = print_ipv6 bs

  unfoldable pub check_valid_ip : List ℕ → Bool
  check_valid_ip s = elim (parse_ip s) [ nil_ip ↦ false | ip4 _ _ _ _ ↦ true | ip6 _ ↦ true ]

  -- The text of a multiaddress begins with '/', and the first field is the empty text in front of it.
  abbrev pub ip_field : List (List ℕ) → Ip
  ip_field (proto ∷ (ip ∷ fs)) = parse_ip ip
  ip_field fs = nil_ip

  unfoldable pub extract_ip_from_maddr : Option (List ℕ) → Ip
  extract_ip_from_maddr none = nil_ip
  extract_ip_from_maddr (some maddr) = ip_field (split 47 maddr).1

  abbrev pub port_field : List (List ℕ) → ℤ
  port_field (proto ∷ (ip ∷ (transport ∷ (port ∷ fs)))) =
      let (n, ok) = atoi port in if ok then n else negsuc 0
  port_field fs = negsuc 0

  unfoldable pub get_port_from_maddrs : Option (List ℕ) → ℤ
  get_port_from_maddrs none = negsuc 0
  get_port_from_maddrs (some maddr) = port_field (split 47 maddr).1

  unfoldable pub get_public_addrs_from_addr_array : List (Option (List ℕ)) → Option (List ℕ)
  get_public_addrs_from_addr_array [] = none
  get_public_addrs_from_addr_array (addr ∷ addrs) =
      if is_ip_public (extract_ip_from_maddr addr)
      then addr
      else get_public_addrs_from_addr_array addrs
