-- ===== src/Discovery.antt =====
-- pkg/discovery/discovery.go: what becomes of a peer that was discovered. The locator is a function from the addresses
-- it is given; what it does with one is modelled in Apis.Locator.
pub mod Located
pub mod Dv5
pub mod Kdht
mod Tests
use armiarma.Base.{
  ℕ, zero, suc, min, String, refl, sym, ap, inl, inr, Bool, true, false, not, Option, none, some,
  List, [], ◌∷◌, ◌++◌, map, arith, eq_iff, eq_refl, str_eq, ltb, leb, if◌then◌else◌, ltb→lt, lt→ltb,
  leb→le, ==_iff, Bool-cases, Option-cases, All, length, get_elem?, take, drop, length-append,
  length-take, length-drop, take-append-drop, Dict, lookup, insert, delete, lookup-insert,
  lookup-delete,
}
use armiarma.Utils.Addresses.{Ip, parse_ip, is_ip_public}
use armiarma.Models.HostInfo.{HostInfo}

-- What the handler has handed to the database and to the locator.
pub record Handled (Attr : Type 0) : Type 0 where
  pub persisted : List (HostInfo Attr)
  pub located : List (List ℕ)

unfoldable pub peer_handler :
    {Attr : Type 0}
    → (List ℕ → Ip)
    → (List ℕ → List ℕ)
    → HostInfo Attr
    → Handled Attr
    → Handled Attr
peer_handler parse_ipv6 print_ipv6 h s =
    let s' = record s { persisted = s.persisted ++ (h ∷ []) } in
    if is_ip_public (parse_ip parse_ipv6 print_ipv6 h.ip)
    then record s' { located = s.located ++ (h.ip ∷ []) }
    else s'

-- What `Start`'s loop does with a notice, and that it ends at the signals of `Stop` and of the context.
pub data Notice (Attr : Type 0) : Type 0 where
  discovered : HostInfo Attr → Notice Attr
  done cancelled : Notice Attr

-- The loop's notices up to its end, and what was handed over.
unfoldable pub serve :
    {Attr : Type 0}
    → (List ℕ → Ip)
    → (List ℕ → List ℕ)
    → List (Notice Attr)
    → Handled Attr
    → Handled Attr × Bool
serve parse_ipv6 print_ipv6 [] s = (s, false)
serve parse_ipv6 print_ipv6 (discovered h ∷ ns) s =
    serve parse_ipv6 print_ipv6 ns (peer_handler parse_ipv6 print_ipv6 h s)
serve parse_ipv6 print_ipv6 (done ∷ ns) s = (s, true)
serve parse_ipv6 print_ipv6 (cancelled ∷ ns) s = (s, true)
