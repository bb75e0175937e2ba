-- ===== src/Db/Persister/Pair/Tallies.antt =====
-- What becomes of the queries of the items that two persisters receive.
use armiarma.Base.{
  ℕ, ◌+◌, ◌≡◌, refl, sym, ap, ◌∙◌, Bool, true, false, List, [], ◌∷◌, ◌++◌, arith, inl, inr,
  Bool-cases, length, ◌&&◌, ◌||◌, ◌==◌, if◌then◌else◌,
}
use armiarma.Db.Batch.{
  Reply, new_query_batch, persist_batch, retry_loop, persist_once, is_ready_to_persist,
}
use armiarma.Db.Persister.{
  Persister, Event, Item, Query, arrives, receives, ticks, step, flush, handle, receive, round,
  launch, add_queries, queries_of,
}
use armiarma.Db.Persister.Flushes.{all_flushed, all_queries, arrivals, account, step-account}
use armiarma.Db.Persister.Pair.{Pair, joined, launch_pair, step_pair, run_pair}

-- How many queries pass a test.
unfoldable pub tally : {Q : Type 0} → (Q → Bool) → List Q → ℕ
tally p [] = 0
tally p (x ∷ xs) = (if p x then 1 else 0) + tally p xs

tally-append :
    {Q : Type 0} (p : Q → Bool) (xs ys : List Q) → tally p (xs ++ ys) ≡ tally p xs + tally p ys
unfolding tally
tally-append p [] ys = omega arith
tally-append p (x ∷ xs) ys = let rest = tally-append p xs ys in omega (arith, rest)

module _ {V D : Type 0} (execute : List (Query V) → D → Reply × D) (b : Bool) where
  -- The queries in the flushed batches, in the batches that the routines fill, and of the items in the channel, which pass a test.
  abbrev pub tallied : (Query V → Bool) → Pair V D → ℕ
  tallied p s =
      tally p (all_flushed s.flushed)
      + (tally p s.first.batch.batch
          + (tally p s.second.batch.batch + tally p (all_queries b s.pending)))

  tally-account :
      (p : Query V → Bool) (s : Persister V D)
      → tally p (account execute b s)
        ≡ tally p (all_flushed s.flushed)
          + (tally p s.batch.batch + tally p (all_queries b s.pending))
  tally-account p s = rw (tally-append, tally-append) refl

  moved :
      (p : Query V → Bool) (e : Event V) (s : Persister V D)
      → let s' = step execute b e s in
        tally p (all_flushed s'.flushed)
          + (tally p s'.batch.batch + tally p (all_queries b s'.pending))
        ≡ (tally p (all_flushed s.flushed)
            + (tally p s.batch.batch + tally p (all_queries b s.pending)))
          + tally p (all_queries b (arrivals (e ∷ [])))
  moved p e s =
      sym (tally-account p (step execute b e s))
      ∙ ap (tally p) (step-account execute b e s)
      ∙ tally-append p (account execute b s) (all_queries b (arrivals (e ∷ [])))
      ∙ ap (λ n. n + tally p (all_queries b (arrivals (e ∷ [])))) (tally-account p s)

  step_pair-tallied :
      (p : Query V → Bool) (e : Bool × Event V) (s : Pair V D)
      → tallied p (step_pair execute b e s)
        ≡ tallied p s + tally p (all_queries b (arrivals (e.1 ∷ [])))
  unfolding step_pair
  step_pair-tallied p (true, e) s = let h = moved p e (joined s s.first) in omega (arith, h)
  step_pair-tallied p (false, e) s = let h = moved p e (joined s s.second) in omega (arith, h)

  -- The items that arrive.
  abbrev pub arrived : List (Bool × Event V) → List (Item V)
  arrived [] = []
  arrived ((who, arrives i) ∷ es) = i ∷ arrived es
  arrived ((who, receives signal) ∷ es) = arrived es
  arrived ((who, ticks signal) ∷ es) = arrived es

  arrived_cons :
      (p : Query V → Bool) (e : Bool × Event V) (es : List (Bool × Event V))
      → tally p (all_queries b (arrivals (e.1 ∷ []))) + tally p (all_queries b (arrived es))
        ≡ tally p (all_queries b (arrived (e ∷ es)))
  unfolding tally
  arrived_cons p (who, arrives i) es = rw (tally-append, tally-append) (unfold tally in omega arith)
  arrived_cons p (who, receives signal) es = omega arith
  arrived_cons p (who, ticks signal) es = omega arith

  run_pair-tallied :
      (p : Query V → Bool) (es : List (Bool × Event V)) (s : Pair V D)
      → tallied p (run_pair execute b es s) ≡ tallied p s + tally p (all_queries b (arrived es))
  unfolding run_pair tally
  run_pair-tallied p [] s = omega arith
  run_pair-tallied p (e ∷ es) s =
      let rest = run_pair-tallied p es (step_pair execute b e s) in
      let one = step_pair-tallied p e s in
      let more = arrived_cons p e es in rest ∙ omega (arith, one, more)

  -- The database after the persisting of some batches, the last of which is the first of the list.
  abbrev pub replay : List (List (Query V)) → D → D
  replay [] d = d
  replay (xs ∷ batches) d =
      (persist_batch execute (record { batch = xs; size = 0 }) (replay batches d)).2

  -- The database is what the flushed batches make of the first one.
  abbrev IsReplayed : D → Persister V D → Type 0
  IsReplayed d s = s.db ≡ replay s.flushed d

  flush-IsReplayed : (d : D) (s : Persister V D) → IsReplayed d s → IsReplayed d (flush execute b s)
  unfolding flush persist_batch retry_loop persist_once
  flush-IsReplayed d s h =
      ap (λ x. (persist_batch execute (record { batch = s.batch.batch; size = 0 }) x).2) h

  handle-IsReplayed :
      (d : D) (i : Item V) (s : Persister V D)
      → IsReplayed d s
      → IsReplayed d (handle execute b i s)
  unfolding handle
  handle-IsReplayed d i s h =
      let s' = record s { batch = add_queries (queries_of b i) s.batch } in
      elim (Bool-cases (is_ready_to_persist s'.batch)) [
        | inl f ↦ rw f (flush-IsReplayed d s' h)
        | inr f ↦ rw f h
      ]

  receive-IsReplayed :
      (d : D) (is : List (Item V)) (s : Persister V D)
      → IsReplayed d s
      → IsReplayed d (receive execute b is s)
  unfolding receive
  receive-IsReplayed d [] s h = h
  receive-IsReplayed d (i ∷ is) s h = handle-IsReplayed d i (record s { pending = is }) h

  round-IsReplayed :
      (d : D) (signal : Bool) (select : Persister V D → Persister V D) (s : Persister V D)
      → ((t : Persister V D) → IsReplayed d t → IsReplayed d (select t))
      → IsReplayed d s
      → IsReplayed d (round execute b signal select s)
  unfolding round
  round-IsReplayed d signal select s k h = elim (Bool-cases s.finished) [
    | inl f ↦ rw f h
    | inr f ↦ elim (Bool-cases (s.ready_to_finish && length s.pending == 0)) [
      | inl g ↦ rw (f, g) h
      | inr g ↦
          rw (f, g)
            (k (record s { ready_to_finish = s.ready_to_finish || signal; finished = false }) h)
    ]
  ]

  step-IsReplayed :
      (d : D) (e : Event V) (s : Persister V D) → IsReplayed d s → IsReplayed d (step execute b e s)
  unfolding step
  step-IsReplayed d (arrives i) s h = h
  step-IsReplayed d (receives signal) s h =
      round-IsReplayed d signal (λ t. receive execute b t.pending t) s
        (λ t. receive-IsReplayed d t.pending t) h
  step-IsReplayed d (ticks signal) s h =
      round-IsReplayed d signal (flush execute b) s (flush-IsReplayed d) h

  run_pair-replay :
      (d : D) (es : List (Bool × Event V)) (s : Pair V D)
      → s.db ≡ replay s.flushed d
      → (run_pair execute b es s).db ≡ replay (run_pair execute b es s).flushed d
  unfolding run_pair step_pair
  run_pair-replay d [] s h = h
  run_pair-replay d ((true, e) ∷ es) s h =
      run_pair-replay d es (step_pair execute b (true, e) s)
        (step-IsReplayed d e (joined s s.first) h)
  run_pair-replay d ((false, e) ∷ es) s h =
      run_pair-replay d es (step_pair execute b (false, e) s)
        (step-IsReplayed d e (joined s s.second) h)

  -- Two persisters at one channel, however the arrival of items and the rounds of both interleave and whatever the database answers: of
  -- the queries of the items that have arrived, each stands once in a batch that was flushed, in a batch that is being filled, or
  -- waits in the channel, so that as many of these as of those pass any test; and the database is what the persisting of the
  -- flushed batches, one after another, makes of the first one. The persisting of a batch, with its retries, is one step.
  pub run_pair-launch_pair :
      (es : List (Bool × Event V)) (size : ℕ) (d : D)
      → let s = run_pair execute b es (launch_pair size d) in
        ((p : Query V → Bool) → tallied p s ≡ tally p (all_queries b (arrived es)))
        × (s.db ≡ replay s.flushed d)
  unfolding launch_pair launch
  run_pair-launch_pair es size d = (
    (λ p.
        run_pair-tallied p es (launch_pair size d) ∙ (unfold tally new_query_batch in omega arith)),
    run_pair-replay d es (launch_pair size d) refl,
  )
