-- ===== src/ReqResp/Varint/RoundTrip.antt =====
-- The reading of a varint gives back the number that was written.
use armiarma.Base.{
  ℕ, zero, suc, ◌+◌, ◌-◌, ◌*◌, ◌/◌, ◌%◌, ◌^◌, ◌≤◌, ◌<◌, ◌≡◌, refl, ap, ◌∙◌, inl, inr, false, ◌&&◌,
  Option, none, some, List, [], ◌∷◌, ◌++◌, arith, ltb, ◌==◌, if◌then◌else◌, ltb→lt, lt→ltb, ==_iff,
  Bool-cases,
}
use mathlib.Core.Path.{subst}
use native.Mathlib.Numerals.{towards_suc}
use armiarma.ReqResp.Reader.{IoError, overflow}
use armiarma.ReqResp.Varint.{put_rounds, put_uvarint, read_rounds, read_uvarint}

last_group : (k x : ℕ) → x < 128 → put_rounds (suc k) x ≡ x ∷ []
unfolding put_rounds
last_group k x h = rw (lt→ltb x 128 h) refl

next_group :
    (k x : ℕ) → ltb x 128 ≡ false → put_rounds (suc k) x ≡ (x % 128 + 128) ∷ put_rounds k (x / 128)
unfolding put_rounds
next_group k x h = rw h refl

pow_step : (s : ℕ) → 2 ^ (s + 7) ≡ 128 * 2 ^ s
pow_step s = simp towards_suc (omega arith)

-- The arithmetic of a group that is not the last one, with 2 ^ s for p.
group_fits :
    (x acc p : ℕ)
    → 128 ≤ x
    → acc < p
    → x * p < 2 ^ 64
    → (x / 128 * (128 * p) < 2 ^ 64)
      × (acc + x % 128 * p < 128 * p)
      × (128 * p < 2 ^ 64)
      × (acc + x % 128 * p + x / 128 * (128 * p) ≡ acc + x * p)
group_fits x acc p hx ha hp =
    let q = x / 128 in
    let r = x % 128 in
    let e : x * p ≡ (128 * q + r) * p = ap (λ (t : ℕ). t * p) (omega arith) in
    let e' : (r + (127 - r)) * p ≡ 127 * p = ap (λ (t : ℕ). t * p) (omega arith) in
    let e'' : x * p ≡ (128 + (x - 128)) * p = ap (λ (t : ℕ). t * p) (omega arith) in
    (omega arith, omega arith, omega arith, omega arith)

complement : (i : ℕ) → i ≤ 9 → 2 ^ (7 * i) * 2 ^ (64 - 7 * i) ≡ 2 ^ 64
complement zero h = refl
complement (suc zero) h = refl
complement (suc (suc zero)) h = refl
complement (suc (suc (suc zero))) h = refl
complement (suc (suc (suc (suc zero)))) h = refl
complement (suc (suc (suc (suc (suc zero))))) h = refl
complement (suc (suc (suc (suc (suc (suc zero)))))) h = refl
complement (suc (suc (suc (suc (suc (suc (suc zero))))))) h = refl
complement (suc (suc (suc (suc (suc (suc (suc (suc zero)))))))) h = refl
complement (suc (suc (suc (suc (suc (suc (suc (suc (suc zero))))))))) h = refl
complement (suc (suc (suc (suc (suc (suc (suc (suc (suc (suc i)))))))))) h = absurd (omega arith)

fits_at : (p m acc x : ℕ) → p * m ≡ 2 ^ 64 → acc < p → x * p < 2 ^ 64 → acc + x * p < 2 ^ 64
fits_at p m acc x e ha hx = elim (Bool-cases (ltb x m)) [
  | inl f ↦
      let x<m = ltb→lt x m f in
      let e' : p * m ≡ p * (x + 1 + (m - x - 1)) = ap (λ (t : ℕ). p * t) (omega arith) in
      omega arith
  | inr f ↦
      let m≤x : m ≤ x = ground arith in
      let e' : x * p ≡ (m + (x - m)) * p = ap (λ (t : ℕ). t * p) (omega arith) in
      absurd (omega arith)
]

fits :
    (i acc x : ℕ)
    → i ≤ 9
    → acc < 2 ^ (7 * i)
    → x * 2 ^ (7 * i) < 2 ^ 64
    → acc + x * 2 ^ (7 * i) < 2 ^ 64
fits i acc x hi ha hx = fits_at (2 ^ (7 * i)) (2 ^ (64 - 7 * i)) acc x (complement i hi) ha hx

-- The test for an overflow fails in a round that the number fits in.
no_overflow : (i x : ℕ) → x * 2 ^ (7 * i) < 2 ^ 64 → (i == 9 && ltb 1 x) ≡ false
no_overflow i x hx = elim (Bool-cases (i == 9)) [
  | inl f ↦
      let hx' : x * 2 ^ 63 < 2 ^ 64 =
        subst (λ (j : ℕ). x * 2 ^ (7 * j) < 2 ^ 64) ((==_iff i 9).0 f) hx in
      rw f (ground arith)
  | inr f ↦ rw f refl
]

before_last : (i : ℕ) → i ≤ 9 → 128 * 2 ^ (7 * i) < 2 ^ 64 → i < 9
before_last i hi hp = elim (Bool-cases (i == 9)) [
  | inl f ↦
      let hp' : 128 * 2 ^ 63 < 2 ^ 64 =
        subst (λ (j : ℕ). 128 * 2 ^ (7 * j) < 2 ^ 64) ((==_iff i 9).0 f) hp in
      absurd (omega arith)
  | inr f ↦ ground arith
]

module _ {S : Type 0} (next : S → ℕ × Option IoError × S) (Reads : S → List ℕ → Type 0)
    (h : (st : S) (x : ℕ) (xs : List ℕ)
      → Reads st (x ∷ xs)
      → (st' : S) × (next st ≡ (x, none, st')) × Reads st' xs) where
  read_rounds-byte :
      (k i s acc b : ℕ) (st st' : S)
      → next st ≡ (b, none, st')
      → read_rounds next (suc k) i s acc st ≡ (
          if ltb b 128
          then (if i == 9 && ltb 1 b
              then (acc, some overflow, st')
              else ((acc + b * 2 ^ s) % 2 ^ 64, none, st'))
          else read_rounds next k (i + 1) (s + 7) ((acc + b % 128 * 2 ^ s) % 2 ^ 64) st')
  unfolding read_rounds
  read_rounds-byte k i s acc b st st' e =
      rw (ap (λ r. r.1) e, ap (λ r. r.0) e, ap (λ r. r.2) e, read_rounds) refl

  read_rounds-last :
      (k i acc x : ℕ) (st st' : S)
      → i ≤ 9
      → acc < 2 ^ (7 * i)
      → x * 2 ^ (7 * i) < 2 ^ 64
      → x < 128
      → next st ≡ (x, none, st')
      → read_rounds next (suc k) i (7 * i) acc st ≡ (acc + x * 2 ^ (7 * i), none, st')
  read_rounds-last k i acc x st st' hi ha hx hs e =
      let fit = fits i acc x hi ha hx in
      read_rounds-byte k i (7 * i) acc x st st' e
      ∙ rw (lt→ltb x 128 hs, no_overflow i x hx) (ap (λ (v : ℕ). (v, none, st')) (omega arith))

  read_rounds-more :
      (k i acc x : ℕ) (st st' : S)
      → acc + x % 128 * 2 ^ (7 * i) < 2 ^ 64
      → next st ≡ (x % 128 + 128, none, st')
      → read_rounds next (suc k) i (7 * i) acc st
        ≡ read_rounds next k (i + 1) (7 * i + 7) (acc + x % 128 * 2 ^ (7 * i)) st'
  read_rounds-more k i acc x st st' hf e =
      let big : ltb (x % 128 + 128) 128 ≡ false = ground arith in
      let low : (x % 128 + 128) % 128 ≡ x % 128 = omega arith in
      read_rounds-byte k i (7 * i) acc (x % 128 + 128) st st' e
      ∙ rw (big, low) (ap (λ (v : ℕ). read_rounds next k (i + 1) (7 * i + 7) v st') (omega arith))

  read_rounds-put_rounds :
      (k i s acc x : ℕ) (st : S) (rest : List ℕ)
      → s ≡ 7 * i
      → i + k ≡ 10
      → acc < 2 ^ s
      → x * 2 ^ s < 2 ^ 64
      → 0 < k
      → Reads st (put_rounds k x ++ rest)
      → (st' : S) × (read_rounds next k i s acc st ≡ (acc + x * 2 ^ s, none, st')) × Reads st' rest
  read_rounds-put_rounds zero i s acc x st rest hs hk ha hx pk hr = absurd (omega arith)
  read_rounds-put_rounds (suc k) i s acc x st rest hs hk ha hx pk hr =
      let ha' : acc < 2 ^ (7 * i) = subst (λ t. acc < 2 ^ t) hs ha in
      let hx' : x * 2 ^ (7 * i) < 2 ^ 64 = subst (λ t. x * 2 ^ t < 2 ^ 64) hs hx in
      elim (Bool-cases (ltb x 128)) [
        | inl f ↦
            let x<128 = ltb→lt x 128 f in
            let (st', e, hr') =
              h st x rest (subst (λ l. Reads st (l ++ rest)) (last_group k x x<128) hr) in
            rw hs (st', read_rounds-last k i acc x st st' (omega arith) ha' hx' x<128 e, hr')
        | inr f ↦
            let p = 2 ^ (7 * i) in
            let (f1, f2, f3, f4) = group_fits x acc p (ground arith) ha' hx' in
            let pw : 2 ^ (7 * i + 7) ≡ 128 * p = pow_step (7 * i) in
            let (st1, e, hr1) =
              h st (x % 128 + 128) (put_rounds k (x / 128) ++ rest)
                (subst (λ l. Reads st (l ++ rest)) (next_group k x f) hr) in
            let (st2, e2, hr2) =
              read_rounds-put_rounds k (i + 1) (7 * i + 7) (acc + x % 128 * p) (x / 128) st1 rest
                (omega arith) (omega arith) (rw pw f2) (rw pw f1)
                (omega (arith, before_last i (omega arith) f3)) hr1 in
            rw hs (
              st2,
              read_rounds-more k i acc x st st1 (omega arith) e
                  ∙ e2
                  ∙ rw pw (ap (λ (v : ℕ). (v, none, st2)) f4),
              hr2,
            )
      ]

  pub read_uvarint-put_uvarint :
      (x : ℕ) (st : S) (rest : List ℕ)
      → x < 2 ^ 64
      → Reads st (put_uvarint x ++ rest)
      → (st' : S) × (read_uvarint next st ≡ (x, none, st')) × Reads st' rest
  unfolding put_uvarint read_uvarint
  read_uvarint-put_uvarint x st rest hx hr =
      let (st', e, hr') =
        read_rounds-put_rounds 10 0 0 0 x st rest refl refl (omega arith) (omega arith)
          (omega arith) hr in
      (st', e ∙ ap (λ (v : ℕ). (v, none, st')) (omega arith), hr')
