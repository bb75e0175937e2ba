-- ===== src/Ethereum/Records/Subnets.antt =====
-- The subnet that is read from a topic.
use armiarma.Base.{
  ℕ, ◌+◌, ◌/◌, ◌%◌, ◌^◌, ◌≤◌, ◌<◌, ◌≡◌, refl, ap, ◌∙◌, inl, inr, Bool, true, false, ◌&&◌, ◌||◌,
  none, List, [], ◌∷◌, ◌++◌, arith, ltb, ◌==◌, ltb→lt, Bool-cases, All, length, if_true, if_false,
}
use armiarma.Base.Int.{pos, ltb_ℤ, leb_ℤ}
use armiarma.Base.Text.{codes, is_prefix}
use armiarma.Base.Decimal.{
  is_digit, atoi, digits_of, positive_int, value, read_digits-digit, read_digits_last,
}
use armiarma.Ethereum.Topics.{
  compose_attnets_topic, join_topic, decimal, subnet_name, subnet_limit, trim, slash, encoding,
}
use armiarma.Ethereum.Topics.Names.{subnet_name_lem}
use armiarma.Ethereum.Records.{attestation_mark, digits_front, first_subnet, get_subnet_from_topic}

-- A text without the letter t, which is the second of the mark.
abbrev pub NoLetterT : List ℕ → Type 0
NoLetterT = All (λ c. (c == 116) ≡ false)

mark_unmatched :
    (a b : ℕ) (s : List ℕ) → (b == 116) ≡ false → is_prefix attestation_mark (a ∷ (b ∷ s)) ≡ false
unfolding is_prefix
mark_unmatched a b s h =
    let g : (116 == b) ≡ false = ground arith in
    elim (Bool-cases (97 == a)) [ inl f ↦ rw (f, g) refl | inr f ↦ rw f refl ]

and_false : (x y : Bool) → x ≡ false → (x && y) ≡ false
and_false x y h = rw h refl

first_subnet-skip :
    (a b : ℕ) (s : List ℕ) → (b == 116) ≡ false → first_subnet (a ∷ (b ∷ s)) ≡ first_subnet (b ∷ s)
unfolding first_subnet
first_subnet-skip a b s h = if_false _ _ _ (and_false _ _ (mark_unmatched a b s h))

-- The mark does not begin in such a text, if what is behind it does not begin with a t.
first_subnet-append :
    (p : List ℕ) (c : ℕ) (s : List ℕ)
    → NoLetterT p
    → (c == 116) ≡ false
    → first_subnet (p ++ (c ∷ s)) ≡ first_subnet (c ∷ s)
first_subnet-append [] c s hp hc = refl
first_subnet-append (a ∷ []) c s hp hc = first_subnet-skip a c s hc
first_subnet-append (a ∷ (b ∷ p)) c s (ha, (hb, hp)) hc =
    first_subnet-skip a b (p ++ (c ∷ s)) hb ∙ first_subnet-append (b ∷ p) c s (hb, hp) hc

-- Behind the mark stand the digits.
digits_front-digit :
    (d : ℕ) (s : List ℕ) → d < 10 → digits_front ((48 + d) ∷ s) ≡ (48 + d) ∷ digits_front s
unfolding digits_front is_digit
digits_front-digit d s h = let f : is_digit (48 + d) ≡ true = ground arith in if_true _ _ _ f

digits_front-decimal :
    (n : ℕ) (s : List ℕ) → n < 100 → digits_front s ≡ [] → digits_front (decimal n ++ s) ≡ decimal n
unfolding decimal
digits_front-decimal n s h e = elim (Bool-cases (ltb n 10)) [
  | inl f ↦ rw f (digits_front-digit n s (ground arith) ∙ ap (◌∷◌ (48 + n)) e)
  | inr f ↦ rw f (
      digits_front-digit (n / 10) _ (omega (arith, h))
      ∙ ap (◌∷◌ (48 + n / 10))
          (digits_front-digit (n % 10) s (omega arith) ∙ ap (◌∷◌ (48 + n % 10)) e))
]

atoi-digit :
    (d : ℕ) (s : List ℕ) (n : ℕ)
    → d < 10
    → n < 100
    → digits_of ((48 + d) ∷ s) ≡ value n
    → atoi ((48 + d) ∷ s) ≡ (pos n, true)
unfolding atoi
atoi-digit d s n h k e =
    let f : (48 + d == 45) ≡ false = ground arith in
    let g : (48 + d == 43) ≡ false = ground arith in
    let l : ltb n (2 ^ 63) ≡ true = ground arith in
    if_false _ _ _ f ∙ if_false _ _ _ g ∙ ap positive_int e ∙ if_true _ _ _ l

atoi-decimal : (n : ℕ) → n < 100 → atoi (decimal n) ≡ (pos n, true)
unfolding decimal
atoi-decimal n h = elim (Bool-cases (ltb n 10)) [
  | inl f ↦
      let e = read_digits_last 0 n n (ground arith) (omega (arith, h)) (omega arith) in
      rw f (atoi-digit n [] n (ground arith) h e)
  | inr f ↦
      let s = (48 + n % 10) ∷ [] in
      let e =
        read_digits-digit 0 (n / 10) (n / 10) s (omega (arith, h)) (omega (arith, h))
          (omega arith) in
      let last =
        read_digits_last (n / 10) (n % 10) n (omega arith) (omega (arith, h)) (omega arith) in
      rw f (atoi-digit (n / 10) s n (omega (arith, h)) h (e ∙ last))
]

decimal-length : (n : ℕ) → ltb 0 (length (decimal n)) ≡ true
unfolding decimal
decimal-length n = elim (Bool-cases (ltb n 10)) [ inl f ↦ rw f refl | inr f ↦ rw f refl ]

digits_front_end : (s : List ℕ) → digits_front (slash ∷ s) ≡ []
unfolding digits_front is_digit
digits_front_end s = refl

-- The digits of a topic decide what is read from it.
get_subnet_from_topic-digits :
    (topic : List ℕ) (n : ℕ)
    → n < 100
    → first_subnet topic ≡ decimal n
    → get_subnet_from_topic topic ≡ (pos n, none)
unfolding get_subnet_from_topic
get_subnet_from_topic-digits topic n h e =
    let f : (length (decimal n) == 0) ≡ false =
      (let l = ltb→lt 0 (length (decimal n)) (decimal-length n) in ground arith) in
    rw (e, f, atoi-decimal n h) refl

first_subnet-join_topic :
    (digest : List ℕ) (n : ℕ)
    → n < 100
    → NoLetterT digest
    → first_subnet (join_topic digest (codes "beacon_attestation_" ++ decimal n)) ≡ decimal n
unfolding join_topic first_subnet is_prefix
first_subnet-join_topic digest n h hd =
    let s = decimal n ++ (slash ∷ encoding) in
    let d = digits_front-decimal n (slash ∷ encoding) h (digits_front_end encoding) in
    let long = ap (λ l. ltb 0 (length l)) d ∙ decimal-length n in
    first_subnet-append digest slash (codes "beacon_attestation_" ++ s) hd refl
    ∙ if_true _ _ _ long
    ∙ d

-- The subnet that is read from the topic of a subnet from 1 to 64 is that subnet, whatever the fork digest, if what is
-- left of this behind the trimming has no letter t.
pub get_subnet_from_topic-compose_attnets_topic :
    (fork_digest : List ℕ) (n : ℕ)
    → 0 < n
    → n ≤ 64
    → NoLetterT (trim fork_digest (codes "0x"))
    → get_subnet_from_topic (compose_attnets_topic fork_digest (pos n)) ≡ (pos n, none)
unfolding compose_attnets_topic
get_subnet_from_topic-compose_attnets_topic digest n pn hn hd =
    let f : (ltb_ℤ (pos subnet_limit) (pos n) || leb_ℤ (pos n) (pos 0)) ≡ false = ground arith in
    let e = if_false [] (join_topic (trim digest (codes "0x")) (subnet_name n)) _ f in
    get_subnet_from_topic-digits (compose_attnets_topic digest (pos n)) n (omega (arith, hn)) (
      ap first_subnet (e ∙ ap (join_topic (trim digest (codes "0x"))) (subnet_name_lem n))
      ∙ first_subnet-join_topic (trim digest (codes "0x")) n (omega (arith, hn)) hd)
