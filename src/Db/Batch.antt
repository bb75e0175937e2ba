-- ===== src/Db/Batch.antt =====
-- pkg/db/postgresql/batch.go: a batch of queries and its persisting. The database is a parameter: given the
-- queries and its state, it answers how one transaction went, and has its next state. `Q` is the type of the queries.
pub mod Retries
use armiarma.Base.{
  ℕ, zero, suc, ◌+◌, min, String, refl, sym, ap, inl, inr, Bool, true, false, not, Option, none,
  some, List, [], ◌∷◌, ◌++◌, map, arith, eq_iff, eq_refl, str_eq, ltb, leb, ◌==◌, if◌then◌else◌,
  ltb→lt, lt→ltb, leb→le, ==_iff, Bool-cases, Option-cases, All, length, get_elem?, take, drop,
  length-append, length-take, length-drop, take-append-drop, Dict, lookup, insert, delete,
  lookup-insert, lookup-delete,
}

-- How a transaction went: it could not begin; or the batch was sent, the results were read until an error with this
-- text, and the commit gave this error.
pub data Reply : Type 0 where
  begin_failed : String → Reply
  ran : String → Option String → Reply

abbrev pub max_retries : ℕ
max_retries = 2

abbrev pub no_query_result : String
no_query_result = "no result"

pub record QueryBatch (Q : Type 0) : Type 0 where
  pub batch : List Q
  pub size : ℕ

-- The error that `persistBatch` returns: after a failed query it commits, and returns the `err` of `Begin`, which
-- is nil then.
unfoldable pub reply_error : Reply → Option String
reply_error (begin_failed e) = some e
reply_error (ran qerr commit) = if str_eq qerr no_query_result then commit else none

module _ {Q : Type 0} where
  unfoldable pub new_query_batch : ℕ → QueryBatch Q
  new_query_batch n = record { batch = []; size = n }

  unfoldable pub is_ready_to_persist : QueryBatch Q → Bool
  is_ready_to_persist q = leb q.size (length q.batch)

  abbrev pub add_query : Q → QueryBatch Q → QueryBatch Q
  add_query x q = record q { batch = q.batch ++ (x ∷ []) }

  abbrev pub clean_batch : QueryBatch Q → QueryBatch Q
  clean_batch q = record q { batch = [] }

  module _ {D : Type 0} (execute : List Q → D → Reply × D) where
    -- `persistBatch`: the error and the database afterwards.
    unfoldable pub persist_once : QueryBatch Q → D → Option String × D
    persist_once q d =
        if length q.batch == 0
        then (none, d)
        else (let (r, d') = execute q.batch d in (reply_error r, d'))

    -- The loop, with the rounds left and the error of the last one.
    unfoldable pub retry_loop : ℕ → Option String → QueryBatch Q → D → Option String × D
    retry_loop zero err q d = (err, d)
    retry_loop (suc k) err q d =
        let r = persist_once q d in
        let more = retry_loop k r.0 q r.1 in elim r.0 [ none ↦ (none, r.1) | some e ↦ more ]

    -- `PersistBatch`: the error, the batch and the database afterwards.
    unfoldable pub persist_batch : QueryBatch Q → D → Option String × QueryBatch Q × D
    persist_batch q d =
        let (err, d') = retry_loop (max_retries + 1) none q d in (err, clean_batch q, d')
