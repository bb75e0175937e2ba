-- ===== src/Db/Persister/Flushes.antt =====
-- What becomes of the queries of the items that the persister receives.
use armiarma.Base.{
  ◌≡◌, refl, sym, ap, ◌∙◌, inl, inr, Bool, true, false, ◌&&◌, ◌||◌, List, [], ◌∷◌, ◌++◌, ◌==◌,
  Bool-cases, length, if_true,
}
use mathlib.Core.Path.{subst}
use mathlib.Core.List.{append_assoc, append-nil}
use armiarma.Db.Batch.{
  is_ready_to_persist, add_query, QueryBatch, Reply, persist_batch, is_ready_to_persist,
}
use armiarma.Db.Persister.{
  arrives, receives, ticks, add_queries, queries_of, Item, Query, Persister, Event, flush, handle,
  receive, round, step, run, queries_of, add_queries,
}

module _ {V : Type 0} where
  -- The queries of the batches, the oldest first.
  abbrev pub all_flushed : List (List (Query V)) → List (Query V)
  all_flushed [] = []
  all_flushed (b ∷ bs) = all_flushed bs ++ b

  abbrev pub all_queries : Bool → List (Item V) → List (Query V)
  all_queries b [] = []
  all_queries b (i ∷ is) = queries_of b i ++ all_queries b is

  -- The items that arrive.
  abbrev pub arrivals : List (Event V) → List (Item V)
  arrivals [] = []
  arrivals (arrives i ∷ es) = i ∷ arrivals es
  arrivals (receives b ∷ es) = arrivals es
  arrivals (ticks b ∷ es) = arrivals es

  all_queries-append :
      (b : Bool) (is js : List (Item V))
      → all_queries b (is ++ js) ≡ all_queries b is ++ all_queries b js
  all_queries-append b [] js = refl
  all_queries-append b (i ∷ is) js =
      ap (λ l. queries_of b i ++ l) (all_queries-append b is js)
      ∙ sym (append_assoc (queries_of b i) (all_queries b is) (all_queries b js))

  add_queries_lem :
      (xs : List (Query V)) (q : QueryBatch (Query V)) → (add_queries xs q).batch ≡ q.batch ++ xs
  add_queries_lem [] q = sym (append-nil q.batch)
  add_queries_lem (x ∷ xs) q = add_queries_lem xs (add_query x q) ∙ append_assoc q.batch (x ∷ []) xs

module _ {V D : Type 0} (execute : List (Query V) → D → Reply × D) (b : Bool) where
  -- All queries that the persister has or will have to add, in their order.
  abbrev pub account : Persister V D → List (Query V)
  account s = all_flushed s.flushed ++ (s.batch.batch ++ all_queries b s.pending)

  flush-account : (s : Persister V D) → account (flush execute b s) ≡ account s
  unfolding flush persist_batch
  flush-account s = append_assoc (all_flushed s.flushed) s.batch.batch (all_queries b s.pending)

  fill-account :
      (i : Item V) (is : List (Item V)) (s : Persister V D)
      → s.pending ≡ i ∷ is
      → account (record s { pending = is; batch = add_queries (queries_of b i) s.batch })
        ≡ account s
  fill-account i is s h =
      ap (λ l. all_flushed s.flushed ++ l)
        (rw (h, add_queries_lem (queries_of b i) s.batch)
          (append_assoc s.batch.batch (queries_of b i) (all_queries b is)))

  handle-account :
      (i : Item V) (is : List (Item V)) (s : Persister V D)
      → s.pending ≡ i ∷ is
      → account (handle execute b i (record s { pending = is })) ≡ account s
  unfolding handle
  handle-account i is s h =
      let s' = record s { pending = is; batch = add_queries (queries_of b i) s.batch } in
      elim (Bool-cases (is_ready_to_persist s'.batch)) [
        | inl f ↦ rw f (flush-account s' ∙ fill-account i is s h)
        | inr f ↦ rw f (fill-account i is s h)
      ]

  receive-account :
      (is : List (Item V)) (s : Persister V D)
      → s.pending ≡ is
      → account (receive execute b is s) ≡ account s
  unfolding receive
  receive-account [] s h = refl
  receive-account (i ∷ is) s h = handle-account i is s h

  round-account :
      (signal : Bool) (select : Persister V D → Persister V D) (s : Persister V D)
      → ((t : Persister V D) → account (select t) ≡ account t)
      → account (round execute b signal select s) ≡ account s
  unfolding round
  round-account signal select s h = elim (Bool-cases s.finished) [
    | inl f ↦ rw f refl
    | inr f ↦ elim (Bool-cases (s.ready_to_finish && length s.pending == 0)) [
      | inl g ↦ rw (f, g) refl
      | inr g ↦
          rw (f, g)
            (h (record s { ready_to_finish = s.ready_to_finish || signal; finished = false }))
    ]
  ]

  pub step-account :
      (e : Event V) (s : Persister V D)
      → account (step execute b e s) ≡ account s ++ all_queries b (arrivals (e ∷ []))
  unfolding step
  step-account (arrives i) s =
      ap (λ l. all_flushed s.flushed ++ (s.batch.batch ++ l))
        (all_queries-append b s.pending (i ∷ []))
      ∙ ap (λ l. all_flushed s.flushed ++ l)
          (sym (append_assoc s.batch.batch (all_queries b s.pending) (all_queries b (i ∷ []))))
      ∙ sym (
          append_assoc (all_flushed s.flushed) (s.batch.batch ++ all_queries b s.pending)
            (all_queries b (i ∷ [])))
  step-account (receives signal) s =
      round-account signal (λ t. receive execute b t.pending t) s
        (λ t. receive-account t.pending t refl)
      ∙ sym (append-nil (account s))
  step-account (ticks signal) s =
      round-account signal (flush execute b) s flush-account ∙ sym (append-nil (account s))

  arrivals_cons :
      (e : Event V) (es : List (Event V))
      → all_queries b (arrivals (e ∷ [])) ++ all_queries b (arrivals es)
        ≡ all_queries b (arrivals (e ∷ es))
  arrivals_cons (arrives i) es = append_assoc (queries_of b i) [] (all_queries b (arrivals es))
  arrivals_cons (receives signal) es = refl
  arrivals_cons (ticks signal) es = refl

  -- Whatever the order of the items, the rounds, the ticks and the end of the context, and whatever the database answers: the
  -- batches that were flushed, then the batch that is being filled, then the queries of the items that wait are all
  -- queries of the items that arrived, in their order, each once.
  pub account-run :
      (es : List (Event V)) (s : Persister V D)
      → account (run execute b es s) ≡ account s ++ all_queries b (arrivals es)
  unfolding run
  account-run [] s = sym (append-nil (account s))
  account-run (e ∷ es) s =
      account-run es (step execute b e s)
      ∙ ap (λ l. l ++ all_queries b (arrivals es)) (step-account e s)
      ∙ append_assoc (account s) (all_queries b (arrivals (e ∷ []))) (all_queries b (arrivals es))
      ∙ ap (λ l. account s ++ l) (arrivals_cons e es)

  round_finished :
      (signal : Bool) (select : Persister V D → Persister V D) (s : Persister V D)
      → s.finished ≡ true
      → round execute b signal select s ≡ s
  unfolding round
  round_finished signal select s f = if_true _ _ s.finished f

  -- A routine that has ended flushes no more.
  abbrev pub Ended : Persister V D → Persister V D → Type 0
  Ended s t = (t.finished ≡ true) × (t.flushed ≡ s.flushed) × (t.batch ≡ s.batch)

  run_finished :
      (es : List (Event V)) (s : Persister V D) → s.finished ≡ true → Ended s (run execute b es s)
  unfolding run step
  run_finished [] s f = (f, refl, refl)
  run_finished (arrives i ∷ es) s f =
      run_finished es (record s { pending = s.pending ++ (i ∷ []) }) f
  run_finished (receives signal ∷ es) s f =
      subst (λ t. Ended s (run execute b es t)) (sym (round_finished signal _ s f))
        (run_finished es s f)
  run_finished (ticks signal ∷ es) s f =
      subst (λ t. Ended s (run execute b es t)) (sym (round_finished signal _ s f))
        (run_finished es s f)

  last_round :
      (signal : Bool) (i : Item V) (s : Persister V D)
      → s.finished ≡ false
      → s.ready_to_finish ≡ true
      → s.pending ≡ i ∷ []
      → is_ready_to_persist (add_queries (queries_of b i) s.batch) ≡ false
      → round execute b signal (λ t. receive execute b t.pending t) s ≡ record {
        pending = [];
        batch = add_queries (queries_of b i) s.batch;
        ready_to_finish = true;
        finished = false;
        db = s.db;
        flushed = s.flushed;
      }
  unfolding round receive handle
  last_round signal i s f r p n = rw (f, r, p, n) refl

  -- When the end was signalled, the last waiting item is received and does not fill the batch, the next round ends the
  -- routine, whatever it would have received: the queries in the batch are never flushed, in no later round either.
  pub run_unflushed :
      (signal signal' : Bool) (i : Item V) (s : Persister V D) (es : List (Event V))
      → s.finished ≡ false
      → s.ready_to_finish ≡ true
      → s.pending ≡ i ∷ []
      → is_ready_to_persist (add_queries (queries_of b i) s.batch) ≡ false
      → let t = run execute b (receives signal ∷ receives signal' ∷ es) s in
        (t.finished ≡ true)
        × (t.flushed ≡ s.flushed)
        × (t.batch ≡ add_queries (queries_of b i) s.batch)
  unfolding run step round
  run_unflushed signal signal' i s es f r p n =
      let s1 = record s {
        pending = [];
        batch = add_queries (queries_of b i) s.batch;
        ready_to_finish = true;
        finished = false;
      } in
      subst
        (λ t.
          Ended s1
            (run execute b es (round execute b signal' (λ t. receive execute b t.pending t) t)))
        (sym (last_round signal i s f r p n)) (run_finished es (record s1 { finished = true }) refl)
