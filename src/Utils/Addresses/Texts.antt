-- ===== src/Utils/Addresses/Texts.antt =====
-- The text of an IPv4 address, printed and parsed.
use armiarma.Base.{
  ℕ, ◌+◌, ◌/◌, ◌%◌, ◌<◌, ◌≡◌, refl, ap, ◌∙◌, inl, inr, true, false, some, List, [], ◌∷◌, ◌++◌,
  arith, ltb, leb, ◌==◌, Bool-cases,
}
use armiarma.Base.Decimal.{digits_of, value, read_digits-digit, read_digits_last}
use armiarma.Utils.UserAgent.{split}
use armiarma.Utils.UserAgent.Version.{occurs}
use armiarma.Utils.Addresses.{
  Ip, ip4, parse_ip, parse_by, parse_ipv4, parse_octet, octet, leading_zero, print_byte, ip_string,
  first_separator,
}

octet_of-digits :
    (s : List ℕ) (n : ℕ)
    → digits_of s ≡ value n
    → n < 256
    → leading_zero s ≡ false
    → parse_octet s ≡ some n
unfolding parse_octet
octet_of-digits s n e h f =
    let g : leb n 255 ≡ true = ground arith in ap (octet s) e ∙ rw (g, f) refl

leading_zero-digit : (d : ℕ) (s : List ℕ) → 0 < d → leading_zero ((48 + d) ∷ s) ≡ false
unfolding leading_zero
leading_zero-digit d [] h = refl
leading_zero-digit d (c ∷ s) h = ground arith

parse_octet-print_byte : (n : ℕ) → n < 256 → parse_octet (print_byte n) ≡ some n
unfolding print_byte leading_zero
parse_octet-print_byte n h = elim (Bool-cases (ltb n 10)) [
  | inl f ↦
      let e = read_digits_last 0 n n (ground arith) (omega arith) (omega arith) in
      rw f (octet_of-digits ((48 + n) ∷ []) n e h refl)
  | inr f ↦
      let last = read_digits_last (n / 10) (n % 10) n (omega arith) (omega arith) (omega arith) in
      elim (Bool-cases (ltb n 100)) [
        | inl g ↦
            let s = (48 + n % 10) ∷ [] in
            let e =
              read_digits-digit 0 (n / 10) (n / 10) s (ground arith) (omega arith) (omega arith) in
            rw (f, g)
              (octet_of-digits ((48 + n / 10) ∷ s) n (e ∙ last) h
                (leading_zero-digit (n / 10) s (ground arith)))
        | inr g ↦
            let s = (48 + n % 10) ∷ [] in
            let r = (48 + n / 10 % 10) ∷ s in
            let d =
              read_digits-digit 0 (n / 100) (n / 100) r (omega arith) (omega arith) (omega arith) in
            let e =
              read_digits-digit (n / 100) (n / 10 % 10) (n / 10) s (omega arith) (omega arith)
                (omega arith) in
            rw (f, g)
              (octet_of-digits ((48 + n / 100) ∷ r) n (d ∙ e ∙ last) h
                (leading_zero-digit (n / 100) r (ground arith)))
      ]
]

split-occurs_not : (sep : ℕ) (p : List ℕ) → occurs sep p ≡ false → split sep p ≡ (p, [])
unfolding split
split-occurs_not sep [] h = refl
split-occurs_not sep (c ∷ p) h =
    let f : (c == sep) ≡ false = ground arith in
    let g : occurs sep p ≡ false = ground arith in rw (f, split-occurs_not sep p g) refl

split-append :
    (sep : ℕ) (p s : List ℕ)
    → occurs sep p ≡ false
    → split sep (p ++ (sep ∷ s)) ≡ (p, (split sep s).0 ∷ (split sep s).1)
unfolding split
split-append sep [] s h = let f : (sep == sep) ≡ true = ground arith in rw f refl
split-append sep (c ∷ p) s h =
    let f : (c == sep) ≡ false = ground arith in
    let g : occurs sep p ≡ false = ground arith in rw (f, split-append sep p s g) refl

-- No separator stands among the digits of a byte.
occurs-print_byte : (n : ℕ) → n < 256 → occurs 46 (print_byte n) ≡ false
unfolding print_byte
occurs-print_byte n h = ground arith

first_separator-digit :
    (d : ℕ) (s : List ℕ) → d < 10 → first_separator ((48 + d) ∷ s) ≡ first_separator s
unfolding first_separator
first_separator-digit d s h = ground arith

first_separator-print_byte :
    (n : ℕ) (s : List ℕ) → n < 256 → first_separator (print_byte n ++ s) ≡ first_separator s
unfolding print_byte
first_separator-print_byte n s h = elim (Bool-cases (ltb n 10)) [
  | inl f ↦ rw f (first_separator-digit n s (ground arith))
  | inr f ↦ elim (Bool-cases (ltb n 100)) [
    | inl g ↦
        rw (f, g)
          (first_separator-digit (n / 10) _ (ground arith)
            ∙ first_separator-digit (n % 10) s (omega arith))
    | inr g ↦
        rw (f, g)
          (first_separator-digit (n / 100) _ (omega arith)
            ∙ first_separator-digit (n / 10 % 10) _ (omega arith)
            ∙ first_separator-digit (n % 10) s (omega arith))
  ]
]

four_octets :
    (a b c d : ℕ)
    → a < 256
    → b < 256
    → c < 256
    → d < 256
    → parse_ipv4
        (print_byte a ++ (46 ∷ (print_byte b ++ (46 ∷ (print_byte c ++ (46 ∷ print_byte d))))))
      ≡ ip4 a b c d
unfolding parse_ipv4
four_octets a b c d ha hb hc hd =
    let s2 = split-append 46 (print_byte c) (print_byte d) (occurs-print_byte c hc) in
    let s3 =
      split-append 46 (print_byte b) (print_byte c ++ (46 ∷ print_byte d))
        (occurs-print_byte b hb) in
    let s4 =
      split-append 46 (print_byte a) (print_byte b ++ (46 ∷ (print_byte c ++ (46 ∷ print_byte d))))
        (occurs-print_byte a ha) in
    rw
      (
        s4,
        s3,
        s2,
        split-occurs_not 46 (print_byte d) (occurs-print_byte d hd),
        parse_octet-print_byte a ha,
        parse_octet-print_byte b hb,
        parse_octet-print_byte c hc,
        parse_octet-print_byte d hd,
      )
      refl

-- The text of an IPv4 address whose bytes are bytes is parsed to that address, whatever becomes of the texts with a colon.
pub parse_ip-ip_string :
    (parse_ipv6 : List ℕ → Ip) (print_ipv6 : List ℕ → List ℕ) (a b c d : ℕ)
    → a < 256
    → b < 256
    → c < 256
    → d < 256
    → parse_ip parse_ipv6 print_ipv6 (ip_string parse_ipv6 print_ipv6 (ip4 a b c d)) ≡ ip4 a b c d
unfolding parse_ip ip_string first_separator
parse_ip-ip_string p q a b c d ha hb hc hd =
    let rest = print_byte b ++ (46 ∷ (print_byte c ++ (46 ∷ print_byte d))) in
    ap (λ x. parse_by p q x (print_byte a ++ (46 ∷ rest)))
      (first_separator-print_byte a (46 ∷ rest) ha)
    ∙ four_octets a b c d ha hb hc hd
