-- ===== src/Db/Tests.antt =====
-- Runs of a batch and of the persister over a database that counts its transactions.
use armiarma.Base.{
  ℕ, ◌+◌, ◌≡◌, refl, ◌⊎◌, Bool, true, false, none, List, [], ◌∷◌, ◌<◌, arith, ◌==◌, if◌then◌else◌,
}
use armiarma.Db.Batch.{
  Reply, QueryBatch, begin_failed, ran, clean_batch, persist_batch, is_ready_to_persist,
}
use armiarma.Db.Batch.Retries.{EndsWith, FailsThrice, persist_batch_lem}
use armiarma.Db.Persister.{
  Persister, Query, Event, run, receives, arrives, ticks, queries_of, add_queries, ip_info,
}
use armiarma.Db.Persister.Flushes.{all_queries, run_unflushed}
use armiarma.Db.Persister.Pair.{launch_pair, run_pair}
use armiarma.Db.Persister.Pair.Tallies.{tally, tallied, arrived, replay, run_pair-launch_pair}

-- A database whose first transaction cannot begin.
abbrev second_time : {A : Type 0} → List A → ℕ → Reply × ℕ
second_time xs n = (if n == 0 then begin_failed "busy" else ran "no result" none, n + 1)

abbrev failing : {A : Type 0} → List A → ℕ → Reply × ℕ
failing xs n = (ran "syntax error" none, n + 1)

abbrev two_queries : QueryBatch ℕ
two_queries = record { batch = 7 ∷ 8 ∷ []; size = 2 }

persist_batch_lem_example :
    ((persist_batch second_time two_queries 0).1 ≡ clean_batch two_queries)
    × (((j : ℕ) × (j < 3)
          × EndsWith second_time j two_queries.batch 0 (
            (persist_batch second_time two_queries 0).0,
            (persist_batch second_time two_queries 0).2,
          ))
        ⊎ FailsThrice second_time two_queries.batch 0 (
          (persist_batch second_time two_queries 0).0,
          (persist_batch second_time two_queries 0).2,
        ))
persist_batch_lem_example = persist_batch_lem second_time two_queries 0 (omega arith)

abbrev waiting : Persister ℕ ℕ
waiting = record {
  pending = ip_info 5 ∷ [];
  batch = record { batch = []; size = 3 };
  ready_to_finish = true;
  finished = false;
  db = 0;
  flushed = [];
}

abbrev both : List (Bool × Event ℕ)
both = (true, arrives (ip_info 6)) ∷ (false, receives false) ∷ (true, ticks false) ∷ []

run_pair-launch_pair_example :
    ((p : Query ℕ → Bool)
      → tallied second_time true p (run_pair second_time true both (launch_pair 3 0))
        ≡ tally p (all_queries true (arrived second_time true both)))
    × ((run_pair second_time true both (launch_pair 3 0)).db
        ≡ replay second_time true (run_pair second_time true both (launch_pair 3 0)).flushed 0)
run_pair-launch_pair_example = run_pair-launch_pair second_time true both 3 0

run_unflushed_example :
    ((run second_time true (receives true ∷ receives false ∷ ticks false ∷ []) waiting).finished
      ≡ true)
    × ((run second_time true (receives true ∷ receives false ∷ ticks false ∷ []) waiting).flushed
        ≡ [])
    × ((run second_time true (receives true ∷ receives false ∷ ticks false ∷ []) waiting).batch
        ≡ add_queries (queries_of true (ip_info 5)) waiting.batch)
unfolding queries_of is_ready_to_persist
run_unflushed_example =
    run_unflushed second_time true true false (ip_info 5) waiting (ticks false ∷ []) refl refl refl
      refl
