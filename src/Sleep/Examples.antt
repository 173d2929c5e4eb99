-- ===== src/Sleep/Examples.antt =====
-- The job with three seconds to sleep, of the first message of a queue.
use sqlxmq.Prelude.{
  ℕ, String, ◌*◌, ◌≡◌, refl, false, List, [], ◌∷◌, map, length, ◌+◌, ◌<◌, All, Memᴰ, Option, none,
  some, arith, All-Memᴰ, ◌+ℤ◌, ◌-ℤ◌, as_i32,
}
use sqlxmq.Store.{Message, Database, uuid_exists}
use sqlxmq.Store.Insert.{latest_message}
use sqlxmq.Store.Reach.{Reach-IsConsistent, empty_queue}
use sqlxmq.Store.Examples.{any_json, two_jobs, two_jobs-Reach}
use sqlxmq.Store.Poll.{poll}
use sqlxmq.Spawn.{second}
use sqlxmq.Runner.{CurrentJob, new_options, start}
use sqlxmq.Runner.Job.{complete}
use sqlxmq.Runner.Job.Complete.{IsHead, Completes}
use sqlxmq.Sleep.{sleep_job, Call, panicked, ended, sleep}
use sqlxmq.Macros.Static.{Scope}
use sqlxmq.Tasks.{aborted, awaited}
use sqlxmq.Sleep.Main.{
  MainRun, MainEvent, polled, kept_alive, passed, run_events, start_task, spawn_sleep, at_start,
  main,
}
use sqlxmq.Sleep.Main.Returns.{sleep_registry, shut_down_lem}
use sqlxmq.Registry.{BoxedError, JobRegistry}
use sqlxmq.Sleep.Ends.{countdown, time_slept, sleep_ends}

abbrev three_seconds : CurrentJob
three_seconds = record {
  id = 1;
  name = "graceful_shutdown::sleep";
  payload_json = some "3";
  payload_bytes = none;
  keep_alive = none;
}

abbrev read : String → Option ℕ
read text = some 3

three_seconds-IsHead : IsHead 1 two_jobs
unfolding two_jobs ◌+ℤ◌ as_i32 latest_message
three_seconds-IsHead m k =
    All-Memᴰ (λ (m : Message). m.id ≡ 1 → uuid_exists m.after_message_id ≡ false) two_jobs.messages
      ((λ e. absurd (omega arith)), ((λ e. refl), ((λ e. absurd (omega arith)), tt))) k

sleep_ends_example :
    (calls : List Call) × (sleep read 5 three_seconds two_jobs
      ≡ ended calls (complete three_seconds two_jobs))
    × (calls ≡ countdown 1 3)
    × (time_slept calls ≡ 3 * second)
    × Completes three_seconds two_jobs
sleep_ends_example =
    sleep_ends read 5 three_seconds "3" 3 two_jobs refl refl (omega arith)
      (Reach-IsConsistent any_json two_jobs-Reach) (omega arith) three_seconds-IsHead

-- A job that has no number panics.
panics : sleep (λ text. none) 5 three_seconds two_jobs ≡ panicked
unfolding sleep
panics = refl

-- The program with a queue that is empty: the job of 5 seconds is polled at once.
abbrev scope : Scope ℕ String String String
scope = record {
  proto = λ p b. b;
  from_secs_f64 = λ s. s;
  module_path = "graceful_shutdown";
  inner = λ current cs. none;
  log = λ name. name;
  panic = "panic";
}

abbrev log_error : String → BoxedError String → String
log_error name e = name

abbrev registry : JobRegistry String String String
registry = sleep_registry scope log_error

abbrev to_string : ℕ → Option String
to_string n = some "5"

abbrev from_str : String → Option ℕ
from_str text = some 5

abbrev spawned : Database
unfolding spawn_sleep
spawned = elim (spawn_sleep scope to_string any_json 3 1 (empty_queue 0)) [
  | none ↦ empty_queue 0
  | some db ↦ db
]

abbrev events : List MainEvent
events = polled 4 ∷ kept_alive 500000 (1 ∷ []) 1000000 ∷ passed 1000000 ∷ []

shut_down_lem_example :
    (s : MainRun) × (main scope log_error to_string any_json from_str
        (λ cs. cs)
        (λ t db. db)
        3
        1
        9
        events
        2000000
        1001
        (empty_queue 0)
      ≡ some (s, aborted 9 ∷ awaited 9 ∷ []))
    × (s.runner.running_jobs ≡ length s.sleeping)
    × All (λ (t : CurrentJob × ℕ). 2000000 + 10000000 < t.1) s.sleeping
    × All (λ (t : CurrentJob × ℕ). t.0.name ≡ (sleep_job scope).name) s.sleeping
    × All
        (λ t.
          Memᴰ t
            (run_events registry from_str
              (λ cs. cs)
              events
              (at_start (start new_options) spawned)).sleeping)
        s.sleeping
unfolding spawn_sleep ◌+ℤ◌ as_i32 latest_message
shut_down_lem_example =
    shut_down_lem scope log_error to_string any_json from_str (λ cs. cs) (λ t db. db) 3 1 9 events
      2000000 1001 (empty_queue 0) spawned refl (omega arith)

-- The job sleeps at the stop signal.
sleeps_at_stop :
    map
      (λ (t : CurrentJob × ℕ). t.1)
      (run_events registry from_str
        (λ cs. cs)
        events
        (at_start (start new_options) spawned)).sleeping
    ≡ 5000004 ∷ []
unfolding run_events spawned start new_options poll ◌+ℤ◌ ◌-ℤ◌ as_i32 latest_message
sleeps_at_stop = refl

-- When the program returns, the nil message is alone and no job runs.
returns_empty :
    elim (main scope log_error to_string any_json from_str
      (λ cs. cs)
      (λ t db. db)
      3
      1
      9
      events
      2000000
      1001
      (empty_queue 0)) [
        | none ↦ none
        | some (s, calls) ↦ some (length s.database.messages + s.runner.running_jobs)
      ]
    ≡ some 1
unfolding main start new_options poll ◌+ℤ◌ ◌-ℤ◌ as_i32 latest_message
returns_empty = refl

-- A job of another name does not sleep, though it has a number.
drops_unknown :
    (start_task registry from_str 4
      (record three_seconds { name = "other" })
      (at_start (start new_options) spawned)).sleeping
    ≡ []
unfolding start_task sleep_job start new_options
drops_unknown = refl
