-- ===== src/Stress/Examples.antt =====
-- The stress program with two jobs, and the numbers of three results.
use sqlxmq.Prelude.{
  ℕ, String, if◌then◌else◌, ◌==◌, str_eq, ◌≡◌, refl, ◌≤◌, ◌<◌, ◌*◌, ◌/◌, List, [], ◌∷◌, some, none,
  Option, All, Memᴰ, arith, true, false, ◌+ℤ◌, ◌-ℤ◌, as_i32,
}
use sqlxmq.Store.{Message, Database, uuid_nil}
use sqlxmq.Store.Consistent.{IsConsistent}
use sqlxmq.Store.Insert.{latest_message}
use sqlxmq.Store.Reach.{here, empty_queue, Reach-IsConsistent}
use sqlxmq.Store.Examples.{any_json}
use sqlxmq.Macros.Static.{Scope}
use sqlxmq.Spawn.{exists}
use sqlxmq.Runner.{CurrentJob}
use sqlxmq.Stress.{Start, Summary, report, schedule_tasks, finished, panicked, run_example_job}
use sqlxmq.Stress.Main.{RunEvent, started, claimed, ended, kept_alive, main}
use sqlxmq.Stress.Main.Runs.{starts, polls, keeps, ends, over, first}
use sqlxmq.Stress.Main.Reports.{main_lem}
use sqlxmq.Stress.Measured.{run_example_job-finished}
use sqlxmq.Stress.Statistics.{count_le, report_lem}
use sqlxmq.Stress.Jobs.{IsThere, schedule_tasks_lem}

abbrev results : List ℕ
results = 30 ∷ 10 ∷ 20 ∷ []

report_lem_example :
    (s : Summary) × (report 3 results ≡ some s)
    × (s.min ≤ s.median)
    × (s.median ≤ s.pct)
    × (s.pct ≤ s.max)
    × All (λ x. s.min ≤ x) results
    × (3 ≤ count_le s.max results)
    × (3 / 2 < count_le s.median results)
    × (3 * 19 / 20 < count_le s.pct results)
report_lem_example = report_lem 3 results (omega arith) refl

abbrev scope : Scope ℕ String String String
scope = record {
  proto = λ p b. b;
  from_secs_f64 = λ s. s;
  module_path = "sqlxmq_stress";
  inner = λ current cs. none;
  log = λ name. name;
  panic = "panic";
}

abbrev show : ℕ → String
show n = "0"

abbrev to_json : ℕ → Option String
to_json t = some (if t == 5 then "5" else "4")

abbrev first_start : Start
first_start = record { now = 5; drawn = 1; seed = 0; elapsed = 4 }

abbrev second_start : Start
second_start = record { now = 6; drawn = 2; seed = 1; elapsed = 5 }

all_start :
    (db' : Database) × (schedule_tasks scope show to_json any_json
        (first_start ∷ second_start ∷ [])
        (empty_queue 0)
      ≡ some db')
    × IsConsistent db'.messages
    × ((m : Message) → Memᴰ m (empty_queue 0).messages → Memᴰ m db'.messages)
    × All (IsThere db'.messages) (first_start ∷ second_start ∷ [])
all_start =
    schedule_tasks_lem scope show to_json any_json (first_start ∷ second_start ∷ []) (empty_queue 0)
      (Reach-IsConsistent any_json here)
      (
        record { no_message = refl; no_payload = refl },
        (record { no_message = refl; no_payload = refl }, tt),
      )
      (((omega arith), tt), (tt, tt)) (("4", "4", refl, refl), (("5", "5", refl, refl), tt))

-- The two jobs as they were started, and the second of them as a runner gets it.
abbrev jobs_started : Database
unfolding schedule_tasks
jobs_started =
    elim (schedule_tasks scope show to_json any_json (first_start ∷ second_start ∷ [])
      (empty_queue 0)) [ none ↦ empty_queue 0 | some db ↦ db ]

abbrev second_job : CurrentJob
second_job = record {
  id = 2;
  name = "sqlxmq_stress::example_job";
  payload_json = some "5";
  payload_bytes = none;
  keep_alive = none;
}

abbrev from_str : String → Option ℕ
from_str text = some (if str_eq text "5" then 5 else 4)

job_finishes :
    (after : Database) × (run_example_job from_str true 12 second_job jobs_started results
      ≡ (finished, after, 30 ∷ 10 ∷ 20 ∷ 7 ∷ []))
    × (exists 2 after ≡ false)
unfolding schedule_tasks ◌+ℤ◌ as_i32 latest_message
job_finishes =
    run_example_job-finished scope show to_json any_json from_str (first_start ∷ second_start ∷ [])
      (empty_queue 0) jobs_started second_start second_job "5" 12 results
      (Reach-IsConsistent any_json here)
      (
        record { no_message = refl; no_payload = refl },
        (record { no_message = refl; no_payload = refl }, tt),
      )
      (((omega arith), tt), (tt, tt)) (("4", "4", refl, refl), (("5", "5", refl, refl), tt)) refl
      (Memᴰ.tail (Memᴰ.head refl)) refl refl refl (omega arith)

-- The same two jobs in a queue that held another message, with a poll and a keep-alive call; the second
-- ends first.
abbrev first_job : CurrentJob
first_job = record {
  id = 1;
  name = "sqlxmq_stress::example_job";
  payload_json = some "4";
  payload_bytes = none;
  keep_alive = none;
}

abbrev events : List RunEvent
events =
    started first_start
    ∷ started second_start
    ∷ claimed 7 none (1 ∷ 2 ∷ [])
    ∷ ended second_job 12
    ∷ kept_alive 13 (1 ∷ []) 10
    ∷ ended first_job 40
    ∷ []

-- A clock that has gone back makes the subtraction panic, with the job completed.
goes_back : (run_example_job from_str true 4 second_job jobs_started []).0 ≡ panicked
unfolding run_example_job jobs_started ◌+ℤ◌ as_i32 latest_message ◌-ℤ◌
goes_back = refl

main_lem_example :
    (db' : Database) × (s : Summary) × (main scope show to_json any_json from_str 2 events
        (empty_queue 0)
      ≡ some (db', s))
    × (report 2 (7 ∷ 36 ∷ []) ≡ some s)
    × All (λ (m : Message). m.id ≡ uuid_nil) db'.messages
main_lem_example =
    main_lem scope show to_json any_json from_str (first_start ∷ second_start ∷ []) events
      (7 ∷ 36 ∷ []) (empty_queue 0)
      (starts (
        starts (
          polls (
            ends first
              (record {
                text = "5";
                same_id = refl;
                payload = refl;
                reads = refl;
                in_order = omega arith;
              })
              (keeps (
                ends first
                  (record {
                    text = "4";
                    same_id = refl;
                    payload = refl;
                    reads = refl;
                    in_order = omega arith;
                  })
                  over))))))
      (Reach-IsConsistent any_json here)
      (
        record { no_message = refl; no_payload = refl },
        (record { no_message = refl; no_payload = refl }, tt),
      )
      (((omega arith), tt), (tt, tt)) (("4", "4", refl, refl), (("5", "5", refl, refl), tt))
      (omega arith)
