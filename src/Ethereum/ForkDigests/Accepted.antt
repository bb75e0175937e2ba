-- ===== src/Ethereum/ForkDigests/Accepted.antt =====
-- What `CheckValidForkDigest` answers for a text that does not start with 0x.
use armiarma.Base.{
  ℕ, ◌≡◌, ◌≢◌, refl, sym, ◌∙◌, inl, inr, Bool, true, false, ◌&&◌, ◌||◌, none, some, List, [], ◌∷◌,
  map, arith, Bool-cases, Option-cases,
}
use armiarma.Base.Text.{codes, is_prefix}
use armiarma.Utils.UserAgent.{to_lower}
use armiarma.Ethereum.ForkDigests.{
  Digests, fork_digests, text_eq, digest_of, decode_string, is_hex, four_bytes, find_digest,
  check_valid_fork_digest,
}

pub text_eq_sound : (s t : List ℕ) → text_eq s t ≡ true → s ≡ t
unfolding text_eq
text_eq_sound [] [] h = refl
text_eq_sound [] (b ∷ t) h = cc
text_eq_sound (a ∷ s) [] h = cc
text_eq_sound (a ∷ s) (b ∷ t) h = ground (arith, text_eq_sound s t)

pub text_eq_refl : (s : List ℕ) → text_eq s s ≡ true
unfolding text_eq
text_eq_refl [] = refl
text_eq_refl (a ∷ s) = ground (arith, text_eq_refl s)

-- A test that every entry passes.
unfoldable pub every : (List ℕ × List ℕ → Bool) → Digests → Bool
every p [] = true
every p (e ∷ rest) = p e && every p rest

-- No key is in lower case; and a digest starts with 0x or is the lower case of its key.
unfoldable is_plain : List ℕ × List ℕ → Bool
is_plain (key, digest) =
    text_eq (digest_of (map to_lower key) fork_digests) []
    && (is_prefix (codes "0x") digest || text_eq (map to_lower key) digest)

fork_digests-is_plain : every is_plain fork_digests ≡ true
unfolding every is_plain text_eq digest_of to_lower is_prefix
fork_digests-is_plain = refl

-- Without the prefix only a lower-case key is found, and its digest is empty.
find_digest-is_plain :
    (entries : Digests) (s d : List ℕ)
    → every is_plain entries ≡ true
    → is_prefix (codes "0x") s ≡ false
    → find_digest entries s ≡ some d
    → d ≡ []
unfolding every is_plain find_digest
find_digest-is_plain [] s d h n e = cc
find_digest-is_plain ((key, digest) ∷ rest) s d h n e = ground (
  arith,
  find_digest-is_plain rest s d,
  text_eq_sound (digest_of (map to_lower key) fork_digests) [],
  text_eq_sound digest s,
  text_eq_sound (map to_lower key) digest,
  text_eq_refl s,
)

all_odd : decode_string (codes "all") ≡ none
unfolding decode_string is_hex
all_odd = refl

four_bytes-eq : (s d : List ℕ) → four_bytes s ≡ (d, true) → (d ≡ s) × (decode_string s ≢ none)
unfolding four_bytes
four_bytes-eq s d e = elim (Option-cases (decode_string s)) [
  | inl n ↦ let e' = rw (n, four_bytes) at e in (cc e', cc e')
  | inr (k, h) ↦ let e' = rw (h, four_bytes) at e in (ground (arith, e'), λ n. cc (sym h ∙ n))
]

-- `range` shows no entry that the map does not have.
abbrev pub Visits : (Digests → Digests) → Type 0
Visits order =
    (p : List ℕ × List ℕ → Bool) → every p fork_digests ≡ true → every p (order fork_digests) ≡ true

-- What a text without the prefix 0x is turned into where it is accepted is not the digest of all forks and has no prefix 0x.
pub check_valid_fork_digest-is_prefix :
    (order : Digests → Digests) (s d : List ℕ)
    → Visits order
    → is_prefix (codes "0x") s ≡ false
    → check_valid_fork_digest order s ≡ (d, true)
    → (text_eq d (codes "all") ≡ false) × (is_prefix (codes "0x") d ≡ false)
unfolding check_valid_fork_digest
check_valid_fork_digest-is_prefix order s d visits n e =
    elim (Option-cases (find_digest (order fork_digests) s)) [
      | inl none_found ↦
          let e' = rw (none_found, check_valid_fork_digest) at e in
          let (same, decoded) = four_bytes-eq s d e' in
          (
            elim (Bool-cases (text_eq s (codes "all"))) [
              | inl all ↦ absurd (decoded (rw (text_eq_sound s (codes "all") all) all_odd))
              | inr other ↦ rw same other
            ],
            rw same n,
          )
      | inr (d', found) ↦
          let e' = rw (found, check_valid_fork_digest) at e in
          let empty =
            find_digest-is_plain (order fork_digests) s d' (visits is_plain fork_digests-is_plain) n
              found in
          let d_empty : d ≡ [] = cc (e', empty) in
          (rw d_empty (unfold text_eq in refl), rw d_empty (unfold is_prefix in refl))
    ]
