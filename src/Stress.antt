-- ===== src/Stress.antt =====
-- src/sqlxmq_stress/src/main.rs: the program that spawns many jobs and says how long they took. A
-- duration is a number, and its results are those that the jobs sent.
pub mod Statistics
pub mod Jobs
pub mod Measured
pub mod Main
mod Examples
use sqlxmq.Prelude.{
  ℕ, zero, suc, String, ok, err, ◌-◌, ◌*◌, ◌/◌, ◌%◌, Bool, List, [], ◌∷◌, ◌++◌, Option, none, some,
  ◌==◌, ltb, length, if◌then◌else◌,
}
use sqlxmq.Store.{Database}
use sqlxmq.Spawn.{JobBuilder, set_channel_name, set_channel_args, set_json, spawn}
use sqlxmq.Runner.{CurrentJob}
use sqlxmq.Runner.Job.{json, complete}
use sqlxmq.Registry.{NamedJob, builder}
use sqlxmq.Macros.Args.{JobOptions, empty_options}
use sqlxmq.Macros.Expand.{MaybeItemFn, inherited, Expanded, expand}
use sqlxmq.Macros.Static.{Scope, named_job}

-- The function under `#[job(channel_name = "foo")]`; its body is no token here.
abbrev pub example_fn : MaybeItemFn String
example_fn = record {
  attrs = [];
  vis = inherited;
  sig = record { ident = "example_job"; inputs = "CurrentJob" ∷ []; rest = "async" };
  block = [];
}

abbrev pub example_options : {F : Type 0} → JobOptions F
example_options = record empty_options { channel_name = some "foo" }

-- The static item that the attribute makes.
unfoldable pub example_job : {F C E R : Type 0} → Scope F C E R → NamedJob C E R
unfolding named_job expand
example_job sc = named_job sc (expand example_options [] example_fn)

abbrev pub seed_channel : ℕ → String
seed_channel seed = if seed % 3 == 0 then "foo" else "bar"

-- A call of `start_job`: the time of its transaction, the id that was drawn for the job, its seed, and
-- the time since the program's start.
pub record Start : Type 0 where
  pub now : ℕ
  pub drawn : ℕ
  pub seed : ℕ
  pub elapsed : ℕ

-- `show` writes a number, `to_json` is serde_json's text of the job's data, if it has one.
module _ {F C E R : Type 0} (sc : Scope F C E R) (show : ℕ → String) (to_json : ℕ → Option String)
    (to_jsonb : String → Option String) where
  unfoldable pub start_builder : Start → Option JobBuilder
  unfolding builder example_job set_channel_name set_channel_args set_json
  start_builder s = set_json (to_json s.elapsed) (
      set_channel_args (show (s.seed / 32))
        (set_channel_name (seed_channel s.seed) (builder s.drawn (example_job sc))))

  -- None where it returns an error, at which `schedule_tasks` aborts the program.
  unfoldable pub start_job : Start → Database → Option Database
  unfolding start_builder spawn
  start_job s db = elim (start_builder s) [
    | none ↦ none
    | some b ↦ elim (spawn to_jsonb s.now b db) [ err e ↦ none | ok (db', id) ↦ some db' ]
  ]

  -- The tasks of `schedule_tasks`, in the order in which their transactions run.
  unfoldable pub schedule_tasks : List Start → Database → Option Database
  unfolding start_job
  schedule_tasks [] db = some db
  schedule_tasks (s ∷ starts) db = elim (start_job s db) [
    | none ↦ none
    | some db' ↦ schedule_tasks starts db'
  ]

pub data Ended : Type 0 where
  finished : Ended
  failed : Ended
  panicked : Ended

-- The body of `example_job`. `from_str` is serde_json's reading of the time that the job started with,
-- `receiving` says whether `main` still takes results, and `end_time` is read when the job is completed;
-- `results` are those that were sent before. `?` ends it with an error, and the subtraction of a later
-- Duration panics.
unfoldable pub run_example_job :
    (String → Option ℕ) → Bool → ℕ → CurrentJob → Database → List ℕ → Ended × Database × List ℕ
unfolding json complete
run_example_job from_str receiving end_time current_job db results =
    elim (json from_str current_job) [
      | none ↦ (failed, db, results)
      | some none ↦ (panicked, db, results)
      | some (some start_time) ↦ elim (complete current_job db).0 [
        | err e ↦ (failed, db, results)
        | ok db' ↦
            if ltb end_time start_time
            then (panicked, db', results)
            else if receiving
            then (finished, db', results ++ ((end_time - start_time) ∷ []))
            else (failed, db', results)
      ]
    ]

-- What `main` prints of the results, but for the throughput.
pub record Summary : Type 0 where
  pub min : ℕ
  pub max : ℕ
  pub median : ℕ
  pub pct : ℕ

unfoldable pub insert_result : ℕ → List ℕ → List ℕ
insert_result x [] = x ∷ []
insert_result x (y ∷ ys) = if ltb y x then y ∷ insert_result x ys else x ∷ y ∷ ys

-- `sort_by_key`
unfoldable pub sort : List ℕ → List ℕ
unfolding insert_result
sort [] = []
sort (x ∷ xs) = insert_result x (sort xs)

abbrev pub get_elem? : List ℕ → ℕ → Option ℕ
get_elem? [] i = none
get_elem? (x ∷ xs) zero = some x
get_elem? (x ∷ xs) (suc i) = get_elem? xs i

-- The four elements that are read: none where one is out of bounds.
unfoldable pub statistics : ℕ → List ℕ → Option Summary
unfolding sort
statistics num_jobs results =
    let sorted = sort results in
    elim (get_elem? sorted 0) [
      | none ↦ none
      | some min ↦ elim (get_elem? sorted (num_jobs - 1)) [
        | none ↦ none
        | some max ↦ elim (get_elem? sorted (num_jobs / 2)) [
          | none ↦ none
          | some median ↦ elim (get_elem? sorted (num_jobs * 19 / 20)) [
            | none ↦ none
            | some pct ↦ some (record { min = min; max = max; median = median; pct = pct })
          ]
        ]
      ]
    ]

-- With the assertion on their number: none where `main` panics.
unfoldable pub report : ℕ → List ℕ → Option Summary
unfolding statistics
report num_jobs results = if length results == num_jobs then statistics num_jobs results else none
