-- ===== src/Db/Persister/Pair.antt =====
-- `NewDBClient` of pkg/db/postgresql/server.go launches two routines of `launchPersister`, which receive from one channel and write to one
-- database: what becomes of the queries of the items that arrive. An event says which of the two moves.
pub mod Tallies
use armiarma.Base.{
  ℕ, zero, suc, ◌+◌, ◌≡◌, refl, sym, ap, ◌∙◌, Bool, true, false, List, [], ◌∷◌, ◌++◌, arith, inl,
  inr, Bool-cases, length, ◌&&◌, ◌||◌, ◌==◌, if◌then◌else◌,
}
use armiarma.Db.Batch.{
  QueryBatch, Reply, new_query_batch, persist_batch, retry_loop, persist_once, is_ready_to_persist,
}
use armiarma.Db.Persister.{
  Persister, Event, Item, Query, arrives, receives, ticks, step, flush, handle, receive, round,
  launch, add_queries, queries_of,
}
use armiarma.Db.Persister.Flushes.{all_flushed, all_queries, arrivals, account, step-account}

-- What a routine has of its own.
pub record Routine (V : Type 0) : Type 0 where
  pub batch : QueryBatch (Query V)
  pub ready_to_finish : Bool
  pub finished : Bool

-- The channel, the database, the batches that were persisted or given up by either, the newest first, and the two routines.
pub record Pair (V D : Type 0) : Type 0 where
  pub pending : List (Item V)
  pub db : D
  pub flushed : List (List (Query V))
  pub first : Routine V
  pub second : Routine V

module _ {V D : Type 0} where
  -- A routine with what both share.
  abbrev pub joined : Pair V D → Routine V → Persister V D
  joined s r = record {
    pending = s.pending;
    batch = r.batch;
    ready_to_finish = r.ready_to_finish;
    finished = r.finished;
    db = s.db;
    flushed = s.flushed;
  }

  abbrev pub own : Persister V D → Routine V
  own p = record { batch = p.batch; ready_to_finish = p.ready_to_finish; finished = p.finished }

  unfoldable pub launch_pair : ℕ → D → Pair V D
  launch_pair size d = record {
    pending = [];
    db = d;
    flushed = [];
    first = own (launch {V = V} size d);
    second = own (launch {V = V} size d);
  }

module _ {V D : Type 0} (execute : List (Query V) → D → Reply × D) (b : Bool) where
  -- `true` stands for the first routine.
  unfoldable pub step_pair : Bool × Event V → Pair V D → Pair V D
  step_pair (true, e) s =
      let p = step execute b e (joined s s.first) in
      record s { pending = p.pending; db = p.db; flushed = p.flushed; first = own p }
  step_pair (false, e) s =
      let p = step execute b e (joined s s.second) in
      record s { pending = p.pending; db = p.db; flushed = p.flushed; second = own p }

  unfoldable pub run_pair : List (Bool × Event V) → Pair V D → Pair V D
  run_pair [] s = s
  run_pair (e ∷ es) s = run_pair es (step_pair e s)
