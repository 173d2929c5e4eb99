-- ===== src/Scenarios/Examples.antt =====
-- Runs of the tests, at moments that they may come to.
use sqlxmq.Prelude.{
  ℕ, String, ◌+ℤ◌, ◌-ℤ◌, as_i32, ◌≡◌, refl, ◌≤◌, Bool, true, false, List, [], ◌∷◌, ◌++◌, Option,
  none, some, arith, str_eq, if◌then◌else◌, map, ◌*◌, ◌==◌, ◌&&◌,
}
use sqlxmq.Store.Insert.{latest_message}
use sqlxmq.Store.Remove.{relink}
use sqlxmq.Store.Poll.{poll}
use sqlxmq.Runner.Job.{complete}
use sqlxmq.Store.Reach.{empty_queue, Reach-IsConsistent}
use sqlxmq.Store.Examples.{any_json, as_listed, as_listed-Keeps, two_jobs, two_jobs-Reach}
use sqlxmq.Spawn
use sqlxmq.Runner.{CurrentJob}
use sqlxmq.Registry.{dispatch, builder}
use sqlxmq.Macros.Static.{Scope}
use sqlxmq.Scenarios.Named.{
  Context, number, text, job_proto, example_job1, example_job2, named_job_runner,
}
use sqlxmq.Scenarios.Attempts.{runs}
use sqlxmq.Scenarios.Saving.{IsState}
use sqlxmq.Scenarios.Saved.{it_can_checkpoint_jobs_lem}
use sqlxmq.Scenarios.Failing.{it_retries_failed_jobs_lem, it_retries_failed_jobs-exact}
use sqlxmq.Scenarios.Cases.{
  it_can_spawn_job, it_can_clear_jobs, it_runs_jobs_in_order, it_runs_jobs_in_parallel,
  it_retries_failed_jobs, it_can_checkpoint_jobs,
}

-- Two rounds before the job is spawned, and two after.
spawns : it_can_spawn_job as_listed any_json 1 100 (50 ∷ 60 ∷ []) (101 ∷ 300 ∷ []) two_jobs ≡ some 1
unfolding it_can_spawn_job two_jobs ◌+ℤ◌ as_i32 latest_message ◌-ℤ◌ relink poll complete
spawns = refl

-- The jobs of one of the three channels are left.
clears :
    it_can_clear_jobs as_listed any_json
      ((10, 1) ∷ (11, 2) ∷ (12, 3) ∷ (13, 4) ∷ (14, 5) ∷ (15, 6) ∷ [])
      (20 ∷ 30 ∷ [])
      (empty_queue 0)
    ≡ some 2
unfolding it_can_clear_jobs ◌+ℤ◌ as_i32 latest_message ◌-ℤ◌ poll complete
clears = refl

-- The second job waits for the first.
in_order :
    it_runs_jobs_in_order as_listed any_json 1 2 10 (11 ∷ 12 ∷ []) (13 ∷ 14 ∷ []) (empty_queue 0)
    ≡ some (1, 2)
unfolding it_runs_jobs_in_order ◌+ℤ◌ as_i32 latest_message ◌-ℤ◌ poll
in_order = refl

in_parallel :
    it_runs_jobs_in_parallel as_listed any_json 1 2 10 (11 ∷ 12 ∷ []) (empty_queue 0) ≡ some 2
unfolding it_runs_jobs_in_parallel ◌+ℤ◌ as_i32 latest_message ◌-ℤ◌ poll
in_parallel = refl

-- With a backoff of 500, a round before each attempt and some after the last.
abbrev due_rounds : List ℕ
due_rounds = 100 ∷ 600 ∷ 1600 ∷ []

it_retries_failed_jobs_lem_example :
    (it_retries_failed_jobs as_listed any_json 7 2 500 100 (100 ∷ 599 ∷ 700 ∷ []) two_jobs
      ≡ some (runs 3 100 500 (100 ∷ 599 ∷ 700 ∷ [])))
    × (runs 3 100 500 (100 ∷ 599 ∷ 700 ∷ []) ≤ 3)
it_retries_failed_jobs_lem_example =
    it_retries_failed_jobs_lem as_listed any_json 7 2 500 100 (100 ∷ 599 ∷ 700 ∷ []) two_jobs
      as_listed-Keeps (λ c. refl) (Reach-IsConsistent any_json two_jobs-Reach) (omega arith)
      (omega arith)

-- The round at 599 comes too early.
runs_twice : runs 3 100 500 (100 ∷ 599 ∷ 700 ∷ []) ≡ 2
unfolding runs
runs_twice = refl

runs_three_times :
    it_retries_failed_jobs as_listed any_json 7 2 500 100 (due_rounds ++ 5000 ∷ 9000 ∷ []) two_jobs
    ≡ some 3
runs_three_times =
    it_retries_failed_jobs-exact as_listed any_json 7 2 500 100 due_rounds (5000 ∷ 9000 ∷ [])
      two_jobs as_listed-Keeps (λ c. refl) (Reach-IsConsistent any_json two_jobs-Reach)
      (omega arith) (omega arith) (omega arith) refl

abbrev to_string : Bool → Option String
to_string true = some "true"
to_string false = some "false"

abbrev from_str : String → Option Bool
from_str json =
    if str_eq json "true" then some true else if str_eq json "false" then some false else none

to_string-IsState : IsState any_json from_str to_string "false" "true"
to_string-IsState = record {
  spawned = ("false", refl, refl);
  reads_before = refl;
  written = ("true", refl, refl);
  reads_after = refl;
}

it_can_checkpoint_jobs_lem_example :
    it_can_checkpoint_jobs as_listed any_json from_str to_string 7 5 500 100
      (100 ∷ 650 ∷ 2000 ∷ [])
      two_jobs
    ≡ some (runs 2 100 500 (100 ∷ 650 ∷ 2000 ∷ []))
it_can_checkpoint_jobs_lem_example =
    it_can_checkpoint_jobs_lem as_listed any_json from_str to_string "false" "true" 7 5 500 100
      (100 ∷ 650 ∷ 2000 ∷ []) two_jobs as_listed-Keeps (λ c. refl) to_string-IsState
      (Reach-IsConsistent any_json two_jobs-Reach) (omega arith) (omega arith) (omega arith)

-- The names in the tests' items; the last job asserts what its contexts are.
abbrev scope : Scope ℕ Context String String
scope = record {
  proto = λ p b. job_proto b;
  from_secs_f64 = λ s. s * 1000000;
  module_path = "sqlxmq::tests";
  inner = λ current cs. elim cs [
    | [] ↦ none
    | number n ∷ text t ∷ [] ↦
        if n == 42 && str_eq t "Hello, world!" then none else some "assertion"
    | _ ↦ some "types"
  ];
  log = λ name. "completed";
  panic = "panic";
}

abbrev job_named : String → CurrentJob
job_named name = record {
  id = 1;
  name = name;
  payload_json = none;
  payload_bytes = none;
  keep_alive = none;
}

-- What the registry leaves of the jobs of three names.
abbrev dispatched : List String → Option (List String)
dispatched names = elim (named_job_runner scope (λ name x. "failed") 2) [
  | none ↦ none
  | some registry ↦ some (map (λ name. dispatch registry (job_named name)) names)
]

uses_registry :
    dispatched ("sqlxmq::tests::example_job1" ∷ "sqlxmq::tests::example_job_with_ctx" ∷ "foo" ∷ [])
    ≡ some ("completed" ∷ "completed" ∷ "failed" ∷ [])
unfolding named_job_runner dispatch
uses_registry = refl

builds_first :
    builder 1 (example_job1 scope 2) ≡ record (Spawn.new 1 "sqlxmq::tests::example_job1") {
      channel_name = "foo";
      ordered = true;
      retries = 3;
      retry_backoff = 2000000;
    }
unfolding builder example_job1
builds_first = refl

builds_second :
    builder 1 (example_job2 scope)
    ≡ record (Spawn.new 1 "sqlxmq::tests::example_job2") { channel_name = "bar" }
unfolding builder example_job2 job_proto
builds_second = refl
