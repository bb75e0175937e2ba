-- ===== src/Discovery/Located.antt =====
-- Which of the discovered peers are located.
use armiarma.Base.Decimal.{Digits, value, bad_syntax, out_of_range, digits_of}
use mathlib.Core.Option.{none-ne-some}
use mathlib.Core.Path.{subst}
use armiarma.Base.{
  ℕ, ◌<◌, String, ◌≡◌, refl, sym, ap, ◌∙◌, inl, inr, true, Option, none, some, List, [], ◌∷◌, ◌++◌,
  arith, Bool-cases, if_true, if_false,
}
use armiarma.Base.Int.{ℤ}
use armiarma.Base.Text.{codes}
use armiarma.Utils.UserAgent.{NetworkType, split}
use armiarma.Utils.Addresses.{
  Ip, nil_ip, ip4, ip6, parse_ip, parse_ipv4, parse_octet, octet, four_fields, parse_by, dot, colon,
  neither, first_separator, ip_string, is_ip_public, extract_ip_from_maddr, in_private_network,
  is_loopback, is_unspecified, four, ip_field,
}
use armiarma.Utils.Addresses.Texts.{parse_ip-ip_string}
use armiarma.Models.HostInfo.{new_host_info, with_multiaddress, first_public, apply_options}
use armiarma.Discovery.{Handled, peer_handler}

-- What the text of a parsed address gives back: the bytes of an IPv4 address are bytes, and the text of another is parsed
-- to the same.
abbrev pub IsPrinted : (List ℕ → Ip) → (List ℕ → List ℕ) → Ip → Type 0
IsPrinted parse_ipv6 print_ipv6 nil_ip = Unit
IsPrinted parse_ipv6 print_ipv6 (ip4 a b c d) = (a < 256) × (b < 256) × (c < 256) × (d < 256)
IsPrinted parse_ipv6 print_ipv6 (ip6 bs) = parse_ip parse_ipv6 print_ipv6 (print_ipv6 bs) ≡ ip6 bs

octet_small : (s : List ℕ) (ds : Digits) (n : ℕ) → octet s ds ≡ some n → n < 256
octet_small s bad_syntax n h = absurd (none-ne-some n h)
octet_small s out_of_range n h = absurd (none-ne-some n h)
octet_small s (value m) n h = ground arith

parse_octet_small : (s : List ℕ) (n : ℕ) → parse_octet s ≡ some n → n < 256
unfolding parse_octet
parse_octet_small s n h = octet_small s (digits_of s) n h

nil_public :
    (p : List ℕ → Ip) (q : List ℕ → List ℕ) → is_ip_public (parse_ip p q (codes "<nil>")) ≡ true
unfolding parse_ip first_separator is_ip_public in_private_network is_loopback is_unspecified
nil_public p q = refl

module _ (parse_ipv6 : List ℕ → Ip) (print_ipv6 : List ℕ → List ℕ) where
  four-IsPrinted :
      (a b c d : Option ℕ)
      → ((n : ℕ) → a ≡ some n → n < 256)
      → ((n : ℕ) → b ≡ some n → n < 256)
      → ((n : ℕ) → c ≡ some n → n < 256)
      → ((n : ℕ) → d ≡ some n → n < 256)
      → IsPrinted parse_ipv6 print_ipv6 (four a b c d)
  four-IsPrinted none b c d ha hb hc hd = tt
  four-IsPrinted (some a) none c d ha hb hc hd = tt
  four-IsPrinted (some a) (some b) none d ha hb hc hd = tt
  four-IsPrinted (some a) (some b) (some c) none ha hb hc hd = tt
  four-IsPrinted (some a) (some b) (some c) (some d) ha hb hc hd =
      (ha a refl, hb b refl, hc c refl, hd d refl)

  fields_IsPrinted :
      (fs : List ℕ × List (List ℕ)) → IsPrinted parse_ipv6 print_ipv6 (four_fields fs)
  fields_IsPrinted (a, []) = tt
  fields_IsPrinted (a, (b ∷ [])) = tt
  fields_IsPrinted (a, (b ∷ (c ∷ []))) = tt
  fields_IsPrinted (a, (b ∷ (c ∷ (d ∷ [])))) =
      four-IsPrinted (parse_octet a) (parse_octet b) (parse_octet c) (parse_octet d)
        (parse_octet_small a) (parse_octet_small b) (parse_octet_small c) (parse_octet_small d)
  fields_IsPrinted (a, (b ∷ (c ∷ (d ∷ (e ∷ fs))))) = tt

  module _ (p : (s : List ℕ) → IsPrinted parse_ipv6 print_ipv6 (parse_ipv6 s)) where
    parse_IsPrinted :
        (s : List ℕ) → IsPrinted parse_ipv6 print_ipv6 (parse_ip parse_ipv6 print_ipv6 s)
    unfolding parse_ip parse_ipv4
    parse_IsPrinted s =
        elim (first_separator s)
          as (λ k. IsPrinted parse_ipv6 print_ipv6 (parse_by parse_ipv6 print_ipv6 k s)) [
            | dot ↦ fields_IsPrinted (split 46 s)
            | colon ↦ p s
            | neither ↦ tt
          ]

    field_IsPrinted :
        (fs : List (List ℕ)) → IsPrinted parse_ipv6 print_ipv6 (ip_field parse_ipv6 print_ipv6 fs)
    field_IsPrinted [] = tt
    field_IsPrinted (a ∷ []) = tt
    field_IsPrinted (a ∷ (ip ∷ fs)) = parse_IsPrinted ip

    extract_IsPrinted :
        (m : Option (List ℕ))
        → IsPrinted parse_ipv6 print_ipv6 (extract_ip_from_maddr parse_ipv6 print_ipv6 m)
    unfolding extract_ip_from_maddr
    extract_IsPrinted none = tt
    extract_IsPrinted (some m) = field_IsPrinted (split 47 m).1

    public_again :
        (ip : Ip)
        → IsPrinted parse_ipv6 print_ipv6 ip
        → is_ip_public ip ≡ true
        → is_ip_public (parse_ip parse_ipv6 print_ipv6 (ip_string parse_ipv6 print_ipv6 ip)) ≡ true
    unfolding ip_string
    public_again nil_ip h e = nil_public parse_ipv6 print_ipv6
    public_again (ip4 a b c d) (ha, hb, hc, hd) e =
        ap is_ip_public (parse_ip-ip_string parse_ipv6 print_ipv6 a b c d ha hb hc hd) ∙ e
    public_again (ip6 bs) h e = ap is_ip_public h ∙ e

    first_public-is_ip_public :
        (maddrs : List (Option (List ℕ)))
        → is_ip_public
            (parse_ip parse_ipv6 print_ipv6 (first_public parse_ipv6 print_ipv6 maddrs).0)
          ≡ true
    unfolding first_public parse_ip first_separator is_ip_public in_private_network is_loopback
        is_unspecified
    first_public-is_ip_public [] = refl
    first_public-is_ip_public (m ∷ ms) =
        let ip = extract_ip_from_maddr parse_ipv6 print_ipv6 m in
        elim (Bool-cases (is_ip_public ip)) [
          | inl f ↦
              subst (λ (r : List ℕ × ℤ). is_ip_public (parse_ip parse_ipv6 print_ipv6 r.0) ≡ true)
                (sym (if_true _ _ _ f)) (public_again ip (extract_IsPrinted m) f)
          | inr f ↦
              subst (λ (r : List ℕ × ℤ). is_ip_public (parse_ip parse_ipv6 print_ipv6 r.0) ≡ true)
                (sym (if_false _ _ _ f)) (first_public-is_ip_public ms)
        ]

-- Of a peer that is discovered with a list of multiaddresses, as kad-dht makes it by WithMultiaddress, and not with one IP and ports as discv5
-- does: whatever multiaddresses it has, and whether any of them has a public IP or an IP at all, its handler
-- persists it and asks for its location. Of texts with a colon it is taken that their addresses are printed as texts that parse to the same.
pub peer_handler-with_multiaddress :
    {Attr : Type 0} (parse_ipv6 : List ℕ → Ip) (print_ipv6 : List ℕ → List ℕ) (zero_time : ℤ)
    (peer_id : String) (network : NetworkType) (maddrs : List (Option (List ℕ))) (s : Handled Attr)
    → ((t : List ℕ) → IsPrinted parse_ipv6 print_ipv6 (parse_ipv6 t))
    → let h =
        new_host_info zero_time peer_id network
          (with_multiaddress parse_ipv6 print_ipv6 maddrs ∷ []) in
      peer_handler parse_ipv6 print_ipv6 h s
      ≡ record { persisted = s.persisted ++ (h ∷ []); located = s.located ++ (h.ip ∷ []) }
unfolding peer_handler new_host_info apply_options with_multiaddress
peer_handler-with_multiaddress p q z id network maddrs s h =
    if_true _ _ _ (first_public-is_ip_public p q h maddrs)
