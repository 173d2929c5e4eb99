-- ===== src/Sleep/Main.antt =====
-- `main` of src/examples/graceful-shutdown.rs: the job is spawned, the runner runs for a while, its
-- main loop is stopped, and the jobs that still sleep are waited for.
pub mod Counts
pub mod Names
pub mod Returns
use sqlxmq.Prelude.{
  ℕ, zero, suc, String, ◌+◌, ◌*◌, ◌&&◌, Bool, List, [], ◌∷◌, ◌++◌, Option, none, some, Fallible, ok,
  err, ltb, leb, if◌then◌else◌,
}
use sqlxmq.Store.{Database}
use sqlxmq.Store.Schedule.{keep_alive}
use sqlxmq.Spawn.{JobBuilder, second, set_json, spawn}
use sqlxmq.Runner.{CurrentJob, JobRunner, new_options, drop_job, num_running_jobs}
use sqlxmq.Runner.Poll.{direct}
use sqlxmq.Runner.Loop.{Round, round}
use sqlxmq.Runner.Job.{json, complete}
use sqlxmq.Registry
use sqlxmq.Registry.{JobRegistry, BoxedError, resolve_job, builder}
use sqlxmq.Macros.Static.{Scope}
use sqlxmq.Tasks.{Event}
use sqlxmq.Tasks.Handle.{JobRunnerHandle, run, stop_runner, drop_runner}
use sqlxmq.Sleep.{sleep_job}

-- The tables, the runner, and the jobs whose tasks are in the loop of `sleep`, each with the time at
-- which it has slept all its seconds.
pub record MainRun : Type 0 where
  pub database : Database
  pub runner : JobRunner
  pub sleeping : List (CurrentJob × ℕ)

pub data MainEvent : Type 0 where
  polled : ℕ → MainEvent
  kept_alive : ℕ → List ℕ → ℕ → MainEvent
  passed : ℕ → MainEvent

-- The jobs that a round hands out.
abbrev pub dispatched : Round → List CurrentJob
dispatched r = elim r.polled [ none ↦ [] | some p ↦ p.dispatched ]

-- The body of `sleep` after its last second, and the job dropped.
unfoldable pub wake_task : ℕ → CurrentJob × ℕ → MainRun → MainRun
unfolding complete drop_job
wake_task now (job, end) s =
    if leb end now
    then record s {
      database = elim (complete job s.database).0 [ ok db ↦ db | err e ↦ s.database ];
      runner = drop_job s.runner;
    }
    else record s { sleeping = s.sleeping ++ ((job, end) ∷ []) }

unfoldable pub wake_tasks : ℕ → List (CurrentJob × ℕ) → MainRun → MainRun
unfolding wake_task
wake_tasks now [] s = s
wake_tasks now (t ∷ ts) s = wake_tasks now ts (wake_task now t s)

abbrev pub wake : ℕ → MainRun → MainRun
wake now s = wake_tasks now s.sleeping (record s { sleeping = [] })

-- `others` is what the keep-alive tasks make of the tables while `wait_jobs_finish` sleeps for the
-- time that ends then. None where the fuel does not last.
module _ (others : ℕ → Database → Database) (start timeout : ℕ) where
  unfoldable pub wait_finish : ℕ → ℕ → MainRun → Option MainRun
  unfolding wake_tasks num_running_jobs
  wait_finish zero elapsed s = none
  wait_finish (suc fuel) elapsed s =
      let later = elapsed + 10000 in
      let s' = wake (start + later) (record s { database = others (start + later) s.database }) in
      let rest = wait_finish fuel later s' in
      if ltb 0 (num_running_jobs s.runner) && ltb elapsed timeout then rest else some s

module _ {C E R : Type 0} (registry : JobRegistry C E R) (from_str : String → Option ℕ) where
  -- The dispatch of a job that was handed out, and its task: the job `sleep` is the one that the
  -- registry of the program has. A job of another name goes to the error handler and is dropped,
  -- and a task that finds no number panics and drops it.
  unfoldable pub start_task : ℕ → CurrentJob → MainRun → MainRun
  unfolding resolve_job json drop_job
  start_task now job s = elim (resolve_job job.name registry) [
    | none ↦ record s { runner = drop_job s.runner }
    | some named ↦ elim (json from_str job) [
      | none ↦ record s { runner = drop_job s.runner }
      | some none ↦ record s { runner = drop_job s.runner }
      | some (some to_sleep) ↦ record s {
        sleeping = s.sleeping ++ ((job, now + to_sleep * second) ∷ []);
      }
    ]
  ]

  unfoldable pub start_tasks : ℕ → List CurrentJob → MainRun → MainRun
  unfolding start_task
  start_tasks now [] s = s
  start_tasks now (job ∷ jobs) s = start_tasks now jobs (start_task now job s)

  -- A round of the main loop, the call of a keep-alive task, or a time at which jobs wake up.
  unfoldable pub run_event :
      (List (String × String) → List (String × String)) → MainEvent → MainRun → MainRun
  unfolding round start_tasks keep_alive wake_tasks
  run_event shuffle (polled now) s =
      let r = round (direct shuffle now) 0 s.runner s.database in
      start_tasks now (dispatched r) (record s { database = r.database; runner = r.runner })
  run_event shuffle (kept_alive now ids duration) s = record s {
    database = elim (keep_alive now ids duration s.database) [ ok db ↦ db | err e ↦ s.database ];
  }
  run_event shuffle (passed now) s = wake now s

  unfoldable pub run_events :
      (List (String × String) → List (String × String)) → List MainEvent → MainRun → MainRun
  unfolding run_event
  run_events shuffle [] s = s
  run_events shuffle (e ∷ events) s = run_events shuffle events (run_event shuffle e s)

module _ {F C E R : Type 0} (sc : Scope F C E R) (to_string : ℕ → Option String)
    (to_jsonb : String → Option String) where
  unfoldable pub spawn_sleep : ℕ → ℕ → Database → Option Database
  unfolding builder sleep_job set_json spawn
  spawn_sleep now drawn db = elim (set_json (to_string 5) (builder drawn (sleep_job sc))) [
    | none ↦ none
    | some b ↦ elim (spawn to_jsonb now b db) [ err e ↦ none | ok (db', id) ↦ some db' ]
  ]

abbrev pub at_start : JobRunner → Database → MainRun
at_start r db = record { database = db; runner = r; sleeping = [] }

-- From the stop signal, at `stopped`: none where a call panics or the fuel does not last.
unfoldable pub shut_down :
    (ℕ → Database → Database) → ℕ → ℕ → JobRunnerHandle → MainRun → Option (MainRun × List Event)
unfolding stop_runner drop_runner wait_finish wake_tasks
shut_down others stopped fuel handle s = elim (stop_runner handle) [
  | none ↦ none
  | some (handle', calls) ↦ elim (wait_finish others stopped 10000000 fuel 0 (wake stopped s)) [
    | none ↦ none
    | some s' ↦ some (s', calls ++ drop_runner handle')
  ]
]

-- `log_error` is the registry's default error handler.
module _ {F C E R : Type 0} (sc : Scope F C E R) (log_error : String → BoxedError E → R)
    (to_string : ℕ → Option String) (to_jsonb : String → Option String)
    (from_str : String → Option ℕ) (shuffle : List (String × String) → List (String × String))
    (others : ℕ → Database → Database) where
  -- The time of the spawn, the id that is drawn, the main loop's task, what happens until the stop
  -- signal and its time, and fuel for the waiting.
  unfoldable pub main :
      ℕ → ℕ → ℕ → List MainEvent → ℕ → ℕ → Database → Option (MainRun × List Event)
  unfolding spawn_sleep Registry.new run new_options run_events shut_down
  main now drawn task events stopped fuel db =
      elim (spawn_sleep sc to_string to_jsonb now drawn db) [
        | none ↦ none
        | some db' ↦ elim (Registry.new log_error (sleep_job sc ∷ [])) [
          | none ↦ none
          | some registry ↦
              let handle = run new_options task in
              let s = run_events registry from_str shuffle events (at_start handle.runner db') in
              shut_down others stopped fuel handle s
        ]
      ]
