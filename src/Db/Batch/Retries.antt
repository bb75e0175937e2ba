-- ===== src/Db/Batch/Retries.antt =====
-- When a batch is given up, and when its loss is not reported.
use armiarma.Base.{
  ℕ, zero, suc, ◌<◌, String, ◌≡◌, refl, ap, ◌∙◌, ◌≢◌, ◌⊎◌, inl, inr, false, Option, none, some,
  List, arith, str_eq, ◌==◌, Option-cases, length,
}
use armiarma.Base.{sym, Bool-cases, eq_iff}
use armiarma.Db.Batch.{
  Reply, begin_failed, QueryBatch, persist_batch, reply_error, retry_loop, persist_once,
  clean_batch, ran, no_query_result,
}

-- What holds of 0 and of all successors below k holds of all numbers below k + 1.
below_suc :
    (P : ℕ → Type 0) (k : ℕ) → P 0 → ((j : ℕ) → j < k → P (suc j)) → (j : ℕ) → j < suc k → P j
below_suc P k p0 ps zero h = p0
below_suc P k p0 ps (suc j) h = ps j (omega arith)

-- All queries were answered.
abbrev pub AreAnswered : String → Type 0
AreAnswered qerr = qerr ≡ no_query_result

-- A transaction that is tried again, with its error.
abbrev pub IsFailure : Reply → String → Type 0
IsFailure (begin_failed e) e' = e ≡ e'
IsFailure (ran qerr commit) e' = AreAnswered qerr × (commit ≡ some e')

-- A transaction that is not tried again.
abbrev pub IsLast : Reply → Type 0
IsLast (begin_failed e) = ⊥
IsLast (ran qerr commit) = (AreAnswered qerr × (commit ≡ none)) ⊎ (qerr ≢ no_query_result)

fails : (r : Reply) (e : String) → reply_error r ≡ some e → IsFailure r e
unfolding reply_error
fails (begin_failed e') e h = cc
fails (ran qerr commit) e h = elim (Bool-cases (str_eq qerr no_query_result)) [
  | inl same ↦ ((eq_iff qerr no_query_result).0 same, rw (same, reply_error) at h)
  | inr other ↦ let h' = rw (other, reply_error) at h in absurd (cc h')
]

ends : (r : Reply) → reply_error r ≡ none → IsLast r
unfolding reply_error
ends (begin_failed e) h = absurd (cc h)
ends (ran qerr commit) h = elim (Bool-cases (str_eq qerr no_query_result)) [
  | inl same ↦ inl ((eq_iff qerr no_query_result).0 same, rw (same, reply_error) at h)
  | inr other ↦ inr (λ same. absurd (ground (arith, eq_iff qerr no_query_result)))
]

module _ {Q D : Type 0} (execute : List Q → D → Reply × D) where
  -- The database after some transactions on the batch.
  pub after : ℕ → List Q → D → D
  after zero xs d = d
  after (suc k) xs d = after k xs (execute xs d).1

  -- The error of the transaction that follows so many others.
  pub error_after : ℕ → List Q → D → Option String
  error_after zero xs d = reply_error (execute xs d).0
  error_after (suc k) xs d = error_after k xs (execute xs d).1

  -- The error of the last of so many transactions.
  pub last_error : ℕ → Option String → List Q → D → Option String
  last_error zero err xs d = err
  last_error (suc k) err xs d = last_error k (reply_error (execute xs d).0) xs (execute xs d).1

  -- The first transaction without an error is the one after j others, fewer than k in all.
  abbrev pub Succeeds : ℕ → List Q → D → Option String × D → Type 0
  Succeeds k xs d r =
      (j : ℕ) × (j < k)
      × (error_after j xs d ≡ none)
      × ((i : ℕ) → i < j → error_after i xs d ≢ none)
      × (r ≡ (none, after (suc j) xs d))

  -- All k transactions have an error, the last of which is returned.
  abbrev pub GivesUp : ℕ → Option String → List Q → D → Option String × D → Type 0
  GivesUp k err xs d r =
      ((i : ℕ) → i < k → error_after i xs d ≢ none) × (r ≡ (last_error k err xs d, after k xs d))

  persist_once_lem :
      (q : QueryBatch Q) (d : D)
      → 0 < length q.batch
      → persist_once execute q d ≡ (reply_error (execute q.batch d).0, (execute q.batch d).1)
  unfolding persist_once
  persist_once_lem q d h = let z : (length q.batch == 0) ≡ false = ground arith in rw z refl

  retry_stops :
      (k : ℕ) (err : Option String) (q : QueryBatch Q) (d : D)
      → 0 < length q.batch
      → reply_error (execute q.batch d).0 ≡ none
      → retry_loop execute (suc k) err q d ≡ (none, (execute q.batch d).1)
  unfolding retry_loop
  retry_stops k err q d h f =
      let o = persist_once_lem q d h in rw (ap (λ r. r.0) o, f, ap (λ r. r.1) o, retry_loop) refl

  retry_goes_on :
      (k : ℕ) (err : Option String) (q : QueryBatch Q) (d : D) (e : String)
      → 0 < length q.batch
      → reply_error (execute q.batch d).0 ≡ some e
      → retry_loop execute (suc k) err q d
        ≡ retry_loop execute k (reply_error (execute q.batch d).0) q (execute q.batch d).1
  unfolding retry_loop
  retry_goes_on k err q d e h f =
      let o = persist_once_lem q d h in
      rw (ap (λ r. r.0) o, f, ap (λ r. r.1) o, retry_loop)
        (ap (λ v. retry_loop execute k v q (execute q.batch d).1) (ap (λ r. r.0) o ∙ f))

  retry_loop_lem :
      (k : ℕ) (err : Option String) (q : QueryBatch Q) (d : D)
      → 0 < length q.batch
      → Succeeds k q.batch d (retry_loop execute k err q d)
        ⊎ GivesUp k err q.batch d (retry_loop execute k err q d)
  unfolding retry_loop after error_after last_error
  retry_loop_lem zero err q d h = inr ((λ i p. absurd (omega arith)), refl)
  retry_loop_lem (suc k) err q d h =
      let xs = q.batch in
      let x = execute xs d in
      elim (Option-cases (reply_error x.0)) [
        | inl f ↦ inl (0, omega arith, f, (λ i p. absurd (omega arith)), retry_stops k err q d h f)
        | inr (e, f) ↦
            let no : reply_error x.0 ≢ none = λ g. cc in
            elim (retry_loop_lem k (reply_error x.0) q x.1 h) [
              | inl (j, l, n, b, r) ↦ inl (
                suc j,
                omega arith,
                n,
                below_suc (λ i. error_after i xs d ≢ none) j no b,
                retry_goes_on k err q d e h f ∙ r,
              )
              | inr (b, r) ↦ inr (
                below_suc (λ i. error_after i xs d ≢ none) k no b,
                retry_goes_on k err q d e h f ∙ r,
              )
            ]
      ]

  persist_batch-retries :
      (q : QueryBatch Q) (d : D)
      → 0 < length q.batch
      → let r = persist_batch execute q d in
        (r.1 ≡ clean_batch q)
        × (Succeeds 3 q.batch d (r.0, r.2) ⊎ GivesUp 3 none q.batch d (r.0, r.2))
  unfolding persist_batch
  persist_batch-retries q d h = (refl, retry_loop_lem 3 none q d h)

  -- The answer of the transaction that follows so many others.
  pub reply_after : ℕ → List Q → D → Reply
  reply_after zero xs d = (execute xs d).0
  reply_after (suc k) xs d = reply_after k xs (execute xs d).1

  error_after-reply_after :
      (i : ℕ) (xs : List Q) (d : D) → error_after i xs d ≡ reply_error (reply_after i xs d)
  unfolding error_after reply_after
  error_after-reply_after zero xs d = refl
  error_after-reply_after (suc i) xs d = error_after-reply_after i xs (execute xs d).1

  -- The database after so many transactions, and the last of them is not tried again: all before it have failed.
  abbrev pub EndsWith : ℕ → List Q → D → Option String × D → Type 0
  EndsWith j xs d r =
      IsLast (reply_after j xs d)
      × ((i : ℕ) → i < j → (e : String) × IsFailure (reply_after i xs d) e)
      × (r ≡ (none, after (suc j) xs d))

  -- Three transactions have failed, and the error of the third is returned.
  abbrev pub FailsThrice : List Q → D → Option String × D → Type 0
  FailsThrice xs d r =
      ((i : ℕ) → i < 3 → (e : String) × IsFailure (reply_after i xs d) e)
      × ((e : String) × IsFailure (reply_after 2 xs d) e × (r ≡ (some e, after 3 xs d)))

  IsFailure-after :
      (i : ℕ) (xs : List Q) (d : D)
      → error_after i xs d ≢ none
      → (e : String) × IsFailure (reply_after i xs d) e × (error_after i xs d ≡ some e)
  IsFailure-after i xs d h = elim (Option-cases (error_after i xs d)) [
    | inl n ↦ absurd (h n)
    | inr (e, n) ↦ (e, fails (reply_after i xs d) e (sym (error_after-reply_after i xs d) ∙ n), n)
  ]

  fails_before :
      (k : ℕ) (xs : List Q) (d : D)
      → ((i : ℕ) → i < k → error_after i xs d ≢ none)
      → (i : ℕ) → i < k
      → (e : String) × IsFailure (reply_after i xs d) e
  fails_before k xs d h i l = let (e, f, _) = IsFailure-after i xs d (h i l) in (e, f)

  thrice :
      (xs : List Q) (d : D) (r : Option String × D) → GivesUp 3 none xs d r → FailsThrice xs d r
  unfolding last_error error_after
  thrice xs d r (b, same) =
      let (e, f, n) = IsFailure-after 2 xs d (b 2 (omega arith)) in
      (fails_before 3 xs d b, (e, f, same ∙ ap (λ o. (o, after 3 xs d)) n))

  -- The persisting of a batch with queries leaves it empty. A transaction fails if it cannot begin, or if all queries were answered and the
  -- commit has an error. Either one of the first three does not fail, because all queries were answered and the commit has no
  -- error or because a query had an error, whatever the commit gave: then it is the last one, and no error is returned. Or all three fail,
  -- and the error of the third is returned.
  pub persist_batch_lem :
      (q : QueryBatch Q) (d : D)
      → 0 < length q.batch
      → let r = persist_batch execute q d in
        (r.1 ≡ clean_batch q)
        × (((j : ℕ) × (j < 3) × EndsWith j q.batch d (r.0, r.2)) ⊎ FailsThrice q.batch d (r.0, r.2))
  persist_batch_lem q d h =
      let (clean, how) = persist_batch-retries q d h in
      (
        clean,
        elim how [
          | inl (j, l, ok, b, same) ↦ inl (
            j,
            l,
            (
              ends (reply_after j q.batch d) (sym (error_after-reply_after j q.batch d) ∙ ok),
              fails_before j q.batch d b,
              same,
            ),
          )
          | inr g ↦ inr (thrice q.batch d _ g)
        ],
      )

  -- When the first transaction of a batch with queries ends with an error that is not the end of the results, the
  -- persisting returns no error, whatever the commit gave, the database has run that one transaction, and the batch is gone.
  pub persist_batch-failed_query :
      (q : QueryBatch Q) (d : D) (qerr : String) (commit : Option String)
      → 0 < length q.batch
      → (execute q.batch d).0 ≡ ran qerr commit
      → str_eq qerr no_query_result ≡ false
      → persist_batch execute q d ≡ (none, clean_batch q, (execute q.batch d).1)
  unfolding persist_batch reply_error
  persist_batch-failed_query q d qerr commit h e f =
      let z : reply_error (execute q.batch d).0 ≡ none = rw (e, f, reply_error) refl in
      ap (λ r. (r.0, clean_batch q, r.1)) (retry_stops 2 none q d h z)
