-- ===== src/Runner/TestOne.antt =====
-- `test_one` of src/runner.rs, which polls for one message and runs its job.
pub mod Outcome
mod Examples
use sqlxmq.Prelude.{
  ℕ, String, pos, ◌+◌, Bool, true, false, List, [], ◌∷◌, Option, none, some, SqlxError, Fallible,
  ok, err,
}
use sqlxmq.Store.{Database}
use sqlxmq.Store.Poll.{PolledMessage}
use sqlxmq.Runner.{JobRunnerOptions, JobRunner, CurrentJob, signals_end, start}
use sqlxmq.Runner.Poll.{Connection}

-- How a call ends: with the poll's error, at the assertion that there is one row, after the job
-- was run on the runner, or without a job.
pub data Tested : Type 0 where
  failed : SqlxError → Tested
  panicked : Tested
  ran : JobRunner → CurrentJob → Tested
  ran_nothing : Tested

-- The pattern asks for an id, `is_committed` and a name.
unfoldable pub to_test_job : PolledMessage → Option CurrentJob
to_test_job m = elim m.id [
  | none ↦ none
  | some id ↦ elim m.is_committed [
    | none ↦ none
    | some false ↦ none
    | some true ↦ elim m.name [
      | none ↦ none
      | some name ↦ some (record {
        id = id;
        name = name;
        payload_json = m.payload_json;
        payload_bytes = m.payload_bytes;
        keep_alive = some signals_end;
      })
    ]
  ]
]

unfoldable pub test_messages : JobRunner → List PolledMessage → Tested
unfolding to_test_job
test_messages r [] = panicked
test_messages r (m ∷ []) = elim (to_test_job m) [
  | none ↦ ran_nothing
  | some job ↦ ran (record r { running_jobs = r.running_jobs + 1 }) job
]
test_messages r (m ∷ n ∷ ms) = panicked

unfoldable pub test_one : Connection → JobRunnerOptions → Database → Database × Tested
unfolding test_messages start
test_one c o db = elim (c.poll o.channel_names (pos 1) db) [
  | ok (db', ms) ↦ (db', test_messages (start o) ms)
  | err e ↦ (db, failed e)
]
