-- ===== src/Stress/Main.antt =====
-- `main` of src/sqlxmq_stress/src/main.rs, as the events of its run in the order of their
-- transactions, on a database of the crate's migrations.
pub mod Tables
pub mod Runs
pub mod Holds
pub mod Completed
pub mod Received
pub mod Reports
use sqlxmq.Prelude.{
  ℕ, String, Bool, List, [], ◌∷◌, Option, none, some, Fallible, ok, err, length, ltb,
}
use sqlxmq.Store.{Database}
use sqlxmq.Store.Poll.{claim}
use sqlxmq.Store.Schedule.{keep_alive}
use sqlxmq.Store.Remove.{clear_all}
use sqlxmq.Runner.{CurrentJob}
use sqlxmq.Macros.Static.{Scope}
use sqlxmq.Stress.{Start, Summary, start_job, run_example_job, report}

-- A task of `schedule_tasks` runs, a poll of the runner claims messages, the task that keeps a job
-- alive calls the queue, or the job that a poll gave runs its body and ends at a reading of the clock.
pub data RunEvent : Type 0 where
  started : Start → RunEvent
  claimed : ℕ → Option (List String) → List ℕ → RunEvent
  kept_alive : ℕ → List ℕ → ℕ → RunEvent
  ended : CurrentJob → ℕ → RunEvent

-- The tables after a call whose error the runner logs.
abbrev pub or_same : Database → Fallible Database → Database
or_same db (err e) = db
or_same db (ok db') = db'

unfoldable pub poll_rows : ℕ → Option (List String) → List ℕ → Database → Database
unfolding claim
poll_rows now names ids db = elim (claim now names ids db) [ err e ↦ db | ok (db', rows) ↦ db' ]

module _ {F C E R : Type 0} (sc : Scope F C E R) (show : ℕ → String) (to_json : ℕ → Option String)
    (to_jsonb : String → Option String) (from_str : String → Option ℕ) (num_jobs : ℕ) where
  -- The tables and the results in the channel. `rx.take(num_jobs)` receives while there are fewer.
  unfoldable pub run_event : RunEvent → Database → List ℕ → Option (Database × List ℕ)
  unfolding start_job poll_rows keep_alive run_example_job
  run_event (started s) db results = elim (start_job sc show to_json to_jsonb s db) [
    | none ↦ none
    | some db' ↦ some (db', results)
  ]
  run_event (claimed now names ids) db results = some (poll_rows now names ids db, results)
  run_event (kept_alive now ids duration) db results =
      some (or_same db (keep_alive now ids duration db), results)
  run_event (ended job end_time) db results =
      let receiving = ltb (length results) num_jobs in
      let (how, db', results') = run_example_job from_str receiving end_time job db results in
      some (db', results')

  unfoldable pub run_events : List RunEvent → Database → List ℕ → Option (Database × List ℕ)
  unfolding run_event
  run_events [] db results = some (db, results)
  run_events (e ∷ events) db results = elim (run_event e db results) [
    | none ↦ none
    | some (db', results') ↦ run_events events db' results'
  ]

  -- None where it ends with an error, is aborted or panics, or has not got all its results when
  -- the events end.
  unfoldable pub main : List RunEvent → Database → Option (Database × Summary)
  unfolding run_events report clear_all
  main events db = elim (clear_all db) [
    | err e ↦ none
    | ok cleared ↦ elim (run_events events cleared []) [
      | none ↦ none
      | some (db', results) ↦ elim (report num_jobs results) [
        | none ↦ none
        | some s ↦ some (db', s)
      ]
    ]
  ]
