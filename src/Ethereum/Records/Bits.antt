-- ===== src/Ethereum/Records/Bits.antt =====
-- The count of the subnets of a node.
use armiarma.Base.{
  ℕ, zero, suc, ◌+◌, ◌*◌, ◌/◌, ◌%◌, ◌≤◌, ◌<◌, ◌≡◌, refl, ap, ◌∙◌, ◌⊎◌, inl, inr, none, some, List,
  [], ◌∷◌, arith, All, length, take,
}
use armiarma.Ethereum.Records.{big_endian_uint64, ones_count, count_bits}

-- 2^j r, and j + k, by recursion on j.
abbrev twice : ℕ → ℕ → ℕ
twice zero r = r
twice (suc j) r = 2 * twice j r

abbrev sum_to : ℕ → ℕ → ℕ
sum_to zero k = k
sum_to (suc j) k = suc (sum_to j k)

-- The ones of a number are those of its lower digits and those of the others.
ones_count-twice :
    (j k b r : ℕ)
    → b < twice j 1
    → ones_count (sum_to j k) (b + twice j r) ≡ ones_count j b + ones_count k r
unfolding ones_count
ones_count-twice zero k b r h =
    let e : b + r ≡ r = omega (arith, h) in
    let z : ones_count k r ≡ 0 + ones_count k r = omega arith in ap (ones_count k) e ∙ z
ones_count-twice (suc j) k b r h =
    let t = twice j r in
    let even : (b + 2 * t) % 2 ≡ b % 2 = omega arith in
    let half : (b + 2 * t) / 2 ≡ b / 2 + t = omega arith in
    let rest = ones_count-twice j k (b / 2) r (omega (arith, h)) in
    rw (even, half) (omega (arith, rest))

ones_count-byte :
    (k b r : ℕ) → b < 256 → ones_count (sum_to 8 k) (b + 256 * r) ≡ ones_count 8 b + ones_count k r
ones_count-byte k b r h =
    ap (ones_count (sum_to 8 k)) (omega arith) ∙ ones_count-twice 8 k b r (omega (arith, h))

abbrev pub ones_of : List ℕ → ℕ
ones_of [] = 0
ones_of (b ∷ bs) = ones_count 8 b + ones_of bs

-- The number of subnets of a node with at least eight bytes of them is the number of ones in the first eight bytes, and
-- counting fewer panics.
pub count_bits-ones_count :
    (bytes : List ℕ)
    → All (λ b. b < 256) bytes
    → ((8 ≤ length bytes) × (count_bits bytes ≡ some (ones_of (take 8 bytes))))
      ⊎ ((length bytes < 8) × (count_bits bytes ≡ none))
unfolding count_bits big_endian_uint64
count_bits-ones_count [] hs = inr (omega arith, refl)
count_bits-ones_count (a ∷ []) hs = inr (omega arith, refl)
count_bits-ones_count (a ∷ (b ∷ [])) hs = inr (omega arith, refl)
count_bits-ones_count (a ∷ (b ∷ (c ∷ []))) hs = inr (omega arith, refl)
count_bits-ones_count (a ∷ (b ∷ (c ∷ (d ∷ [])))) hs = inr (omega arith, refl)
count_bits-ones_count (a ∷ (b ∷ (c ∷ (d ∷ (e ∷ []))))) hs = inr (omega arith, refl)
count_bits-ones_count (a ∷ (b ∷ (c ∷ (d ∷ (e ∷ (f ∷ [])))))) hs = inr (omega arith, refl)
count_bits-ones_count (a ∷ (b ∷ (c ∷ (d ∷ (e ∷ (f ∷ (g ∷ []))))))) hs = inr (omega arith, refl)
count_bits-ones_count (a ∷ (b ∷ (c ∷ (d ∷ (e ∷ (f ∷ (g ∷ (h ∷ bs))))))))
      (ha, (hb, (hc, (hd, (he, (hf, (hg, (hh, hs)))))))) =
    let s1 = ones_count-byte 8 b a hb in
    let n2 = b + 256 * a in
    let s2 = ones_count-byte 16 c n2 hc in
    let n3 = c + 256 * n2 in
    let s3 = ones_count-byte 24 d n3 hd in
    let n4 = d + 256 * n3 in
    let s4 = ones_count-byte 32 e n4 he in
    let n5 = e + 256 * n4 in
    let s5 = ones_count-byte 40 f n5 hf in
    let n6 = f + 256 * n5 in
    let s6 = ones_count-byte 48 g n6 hg in
    let s7 = ones_count-byte 56 h (g + 256 * n6) hh in
    inl (omega arith, ap some (omega (arith, s1, s2, s3, s4, s5, s6, s7)))
