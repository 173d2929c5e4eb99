-- ===== src/Scenarios.antt =====
-- The tests of src/lib.rs. What a test does with time are the moments at which the main loop of its
-- runner polls: between two of them the tasks that were spawned run to their ends. None is a panic.

pub mod Single
pub mod Rounds
pub mod Cases
pub mod Start
pub mod Attempts
pub mod Retries
pub mod Spawned
pub mod Failing
pub mod Tasks
pub mod Saving
pub mod Checkpoint
pub mod Saved
pub mod Named
mod Examples
use sqlxmq.Prelude.{
  ℕ, String, ◌+◌, Bool, true, false, not, List, [], ◌∷◌, ◌++◌, Option, none, some, ◌==◌, Fallible,
  ok, err,
}
use sqlxmq.Store.{Message, Database, uuid_nil}
use sqlxmq.Store.Remove.{delete_where}
use sqlxmq.Spawn.{
  JobBuilder, new, set_channel_name, set_ordered, set_retries, set_retry_backoff, set_json, spawn,
  clear,
}
use sqlxmq.Runner.{CurrentJob, JobRunner, new_options, start, drop_job}
use sqlxmq.Runner.Poll.{direct}
use sqlxmq.Runner.Loop.{round, Round}
use sqlxmq.Runner.Job.{complete, checkpoint, json, new_checkpoint}
use sqlxmq.Runner.Job

-- What a closure of a test makes of the tables at some moment, and the job if it sends it away.
abbrev pub Closure : Type 0
Closure = ℕ → CurrentJob → Database → Database × Option CurrentJob

-- The pool, the runner, `counter`, and the jobs that `rx` has.
pub record TestRun : Type 0 where
  pub database : Database
  pub runner : JobRunner
  pub counter : ℕ
  pub received : List CurrentJob

-- The tables that the test starts with.
unfoldable pub test_pool : Database → Option Database
unfolding delete_where
test_pool db = elim (delete_where (λ m. not (m.id == uuid_nil)) db.messages) [
  | ok messages ↦ some (record db { messages = messages; payloads = [] })
  | err e ↦ none
]

unfoldable pub test_job_runner : Database → TestRun
unfolding start new_options
test_job_runner db = record {
  database = db;
  runner = start new_options;
  counter = 0;
  received = [];
}

-- The job's dispatch and its task: a job that is not sent away is dropped at the task's end.
unfoldable pub run_task : Closure → ℕ → CurrentJob → TestRun → TestRun
unfolding drop_job
run_task f now job s =
    let (db, sent) = f now job s.database in
    let s' = record s { database = db; counter = s.counter + 1 } in
    elim sent [
      | none ↦ record s' { runner = drop_job s.runner }
      | some away ↦ record s' { received = s.received ++ (away ∷ []) }
    ]

unfoldable pub run_tasks : Closure → ℕ → List CurrentJob → TestRun → TestRun
unfolding run_task
run_tasks f now [] s = s
run_tasks f now (job ∷ jobs) s = run_tasks f now jobs (run_task f now job s)

-- The closures of the tests, with a job whose calls fail left as it is. `to_jsonb` is the database's.
abbrev pub completes : Closure
completes now job db = elim (complete job db).0 [ ok db' ↦ (db', none) | err e ↦ (db, none) ]

abbrev pub returns : Closure
returns now job db = (db, none)

abbrev pub sends : Closure
sends now job db = (db, some job)

-- `from_str` and `to_string` are serde_json's, at `bool`.
module _ (to_jsonb : String → Option String) (from_str : String → Option Bool)
    (to_string : Bool → Option String) where
  unfoldable pub saves_state : ℕ → CurrentJob → Database → Option Database
  unfolding Job.checkpoint Job.set_json new_checkpoint
  saves_state now job db = elim (Job.set_json (to_string true) new_checkpoint) [
    | none ↦ none
    | some c ↦ elim (Job.checkpoint to_jsonb now c job db) [ ok db' ↦ some db' | err e ↦ none ]
  ]

  unfoldable pub checkpoints : Closure
  unfolding json complete saves_state
  checkpoints now job db = elim (json from_str job) [
    | none ↦ returns now job db
    | some none ↦ returns now job db
    | some (some true) ↦ completes now job db
    | some (some false) ↦ elim (saves_state now job db) [
      | none ↦ returns now job db
      | some db' ↦ (db', none)
    ]
  ]

module _ (shuffle : List (String × String) → List (String × String)) where
  -- A round of the runner's main loop, and the tasks of its jobs.
  unfoldable pub run_round : Closure → ℕ → TestRun → TestRun
  unfolding round run_tasks
  run_round f now s =
      let r = round (direct shuffle now) 0 s.runner s.database in
      let s' = record s { database = r.database; runner = r.runner } in
      elim r.polled [ none ↦ s' | some p ↦ run_tasks f now p.dispatched s' ]

  -- `pause`, with rounds at these times.
  unfoldable pub pause : Closure → List ℕ → TestRun → TestRun
  unfolding run_round
  pause f [] s = s
  pause f (now ∷ times) s = pause f times (run_round f now s)
