-- ===== src/Ethereum/Topics/Names.antt =====
-- What the names of the topics tell, and what they lose.
use armiarma.Base.{
  ℕ, ◌≤◌, ◌<◌, ◌≡◌, refl, ap, ◌⊎◌, inl, inr, Bool, true, false, not, ◌&&◌, ◌||◌, some, List, [],
  ◌∷◌, ◌++◌, arith, ltb, ◌==◌, Bool-cases, All,
}
use mathlib.Core.List.{append-nil}
use armiarma.Base.Int.{ℤ, pos, negsuc, ◌≤ℤ◌, leb_ℤ, ltb_ℤ}
use armiarma.Base.Text.{codes, is_prefix}
use armiarma.Ethereum.Topics.{
  subnet_limit, slash, split, join_topic, trim, trim_left, trim_right, trim_end, in_cutset,
  compose_topic, eth2_topic_pretty, encoding, fork_digest_prefix, decimal, subnet_name,
  compose_attnets_topic, replace_all,
}

-- A text without a slash is one piece.
abbrev pub IsPiece : List ℕ → Type 0
IsPiece s = All (λ c. (c == slash) ≡ false) s

abbrev pub no_slash : List ℕ → Bool
no_slash [] = true
no_slash (c ∷ s) = not (c == slash) && no_slash s

pub no_slash-IsPiece : (s : List ℕ) → no_slash s ≡ true → IsPiece s
no_slash-IsPiece [] h = tt
no_slash-IsPiece (c ∷ s) h = (ground arith, no_slash-IsPiece s (ground arith))

split-piece : (p s : List ℕ) → IsPiece p → split (p ++ (slash ∷ s)) ≡ p ∷ split s
unfolding split
split-piece [] s h = refl
split-piece (c ∷ p) s (h, hs) = rw (h, split-piece p s hs) refl

trim_left-IsPiece : (cut s : List ℕ) → IsPiece s → IsPiece (trim_left cut s)
unfolding trim_left
trim_left-IsPiece cut [] h = tt
trim_left-IsPiece cut (c ∷ s) (h, hs) = elim (Bool-cases (in_cutset c cut)) [
  | inl f ↦ rw f (trim_left-IsPiece cut s hs)
  | inr f ↦ rw f (h, hs)
]

trim_end-IsPiece :
    (cut : List ℕ) (c : ℕ) (s : List ℕ)
    → (c == slash) ≡ false
    → IsPiece s
    → IsPiece (trim_end cut c s)
trim_end-IsPiece cut c [] h hs = elim (Bool-cases (in_cutset c cut)) [
  | inl f ↦ rw f tt
  | inr f ↦ rw f (h, tt)
]
trim_end-IsPiece cut c (x ∷ xs) h hs = (h, hs)

trim_right-IsPiece : (cut s : List ℕ) → IsPiece s → IsPiece (trim_right cut s)
unfolding trim_right
trim_right-IsPiece cut [] h = tt
trim_right-IsPiece cut (c ∷ s) (h, hs) =
    trim_end-IsPiece cut c (trim_right cut s) h (trim_right-IsPiece cut s hs)

join_topic-pretty :
    (digest name : List ℕ)
    → IsPiece digest
    → IsPiece name
    → eth2_topic_pretty (join_topic digest name) ≡ some name
unfolding eth2_topic_pretty join_topic split
join_topic-pretty digest name hd hn =
    let e = split-piece name encoding hn in
    let e' = split-piece digest (name ++ (slash ∷ encoding)) hd in rw (e', e) refl

-- The pretty name of a composed topic is the name of its message type, when neither that nor the fork digest
-- has a slash.
pub eth2_topic_pretty-compose_topic :
    (digest name : List ℕ)
    → IsPiece digest
    → IsPiece name
    → eth2_topic_pretty (compose_topic digest name) ≡ some name
unfolding compose_topic trim
eth2_topic_pretty-compose_topic digest name hd hn =
    join_topic-pretty (trim digest fork_digest_prefix) name
      (trim_right-IsPiece _ _ (trim_left-IsPiece _ digest hd)) hn

trim_right_zero :
    (cut s : List ℕ) → in_cutset 48 cut ≡ true → trim_right cut (s ++ (48 ∷ [])) ≡ trim_right cut s
unfolding trim_right
trim_right_zero cut [] h = rw h refl
trim_right_zero cut (c ∷ s) h = ap (trim_end cut c) (trim_right_zero cut s h)

trim_zero :
    (cut s : List ℕ)
    → in_cutset 48 cut ≡ true
    → trim_right cut (trim_left cut (s ++ (48 ∷ []))) ≡ trim_right cut (trim_left cut s)
unfolding trim_left
trim_zero cut [] h = rw h refl
trim_zero cut (c ∷ s) h = elim (Bool-cases (in_cutset c cut)) [
  | inl f ↦ rw f (trim_zero cut s h)
  | inr f ↦ rw f (trim_right_zero cut (c ∷ s) h)
]

-- A zero at the end of a fork digest is lost: the topic is that of the digest without it.
pub compose_topic_zero :
    (digest name : List ℕ) → compose_topic (digest ++ codes "0") name ≡ compose_topic digest name
unfolding compose_topic trim in_cutset
compose_topic_zero digest name =
    ap (λ d. join_topic d name) (trim_zero fork_digest_prefix digest refl)

decimal-IsPiece : (n : ℕ) → IsPiece (decimal n)
unfolding decimal
decimal-IsPiece n = elim (Bool-cases (ltb n 10)) [
  | inl f ↦ rw f (ground arith, tt)
  | inr f ↦ rw f (ground arith, (ground arith, tt))
]

append-IsPiece : (p q : List ℕ) → IsPiece p → IsPiece q → IsPiece (p ++ q)
append-IsPiece [] q h k = k
append-IsPiece (c ∷ p) q (h, hs) k = (h, append-IsPiece p q hs k)

pub subnet_name_lem : (n : ℕ) → subnet_name n ≡ codes "beacon_attestation_" ++ decimal n
unfolding subnet_name replace_all is_prefix
subnet_name_lem n = ap (λ l. codes "beacon_attestation_" ++ l) (append-nil (decimal n))

-- The topic of a subnet from 1 to 64, of a fork digest without a slash, has the name of the attestations of this
-- subnet for its pretty name; any other subnet has the empty topic.
pub compose_attnets_topic_lem :
    (digest : List ℕ) (subnet : ℤ)
    → IsPiece digest
    → ((n : ℕ) × (subnet ≡ pos n)
        × (0 < n)
        × (n ≤ 64)
        × (eth2_topic_pretty (compose_attnets_topic digest subnet)
            ≡ some (codes "beacon_attestation_" ++ decimal n)))
      ⊎ (((subnet ≤ℤ pos 0) ⊎ (pos 65 ≤ℤ subnet)) × (compose_attnets_topic digest subnet ≡ []))
unfolding compose_attnets_topic trim
compose_attnets_topic_lem digest (negsuc n) hd =
    let f : (ltb_ℤ (pos subnet_limit) (negsuc n) || leb_ℤ (negsuc n) (pos 0)) ≡ true =
      ground arith in
    inr (inl (omega arith), rw f refl)
compose_attnets_topic_lem digest (pos n) hd =
    elim (Bool-cases (ltb_ℤ (pos subnet_limit) (pos n) || leb_ℤ (pos n) (pos 0))) [
      | inl f ↦ inr (ground arith, rw f refl)
      | inr f ↦
          let positive : 0 < n = ground arith in
          let small : n ≤ 64 = ground arith in
          inl (
            n,
            refl,
            positive,
            small,
            rw (f, subnet_name_lem n)
                (join_topic-pretty (trim digest (codes "0x"))
                  (codes "beacon_attestation_" ++ decimal n)
                  (trim_right-IsPiece _ _ (trim_left-IsPiece _ digest hd))
                  (append-IsPiece (codes "beacon_attestation_") (decimal n)
                    (no_slash-IsPiece (codes "beacon_attestation_") refl) (decimal-IsPiece n))),
          )
    ]
