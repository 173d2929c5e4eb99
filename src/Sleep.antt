-- ===== src/Sleep.antt =====
-- src/examples/graceful-shutdown.rs: the job `sleep`. A sleep of tokio's takes the time that it is
-- asked for, and the tables are those that the completion finds when the loop has ended.
pub mod Ends
pub mod Main
mod Examples
use sqlxmq.Prelude.{
  ℕ, zero, suc, String, ◌-◌, Bool, List, [], ◌∷◌, Option, none, some, Fallible, ltb, if◌then◌else◌,
}
use sqlxmq.Store.{Database}
use sqlxmq.Spawn.{second}
use sqlxmq.Runner.{CurrentJob}
use sqlxmq.Runner.Job.{json, complete}
use sqlxmq.Registry.{NamedJob}
use sqlxmq.Macros.Args.{empty_options}
use sqlxmq.Macros.Expand.{MaybeItemFn, public, expand}
use sqlxmq.Macros.Static.{Scope, named_job}

-- The function under `#[job]`; its body is no token here.
abbrev pub sleep_fn : MaybeItemFn String
sleep_fn = record {
  attrs = [];
  vis = public;
  sig = record { ident = "sleep"; inputs = "CurrentJob" ∷ []; rest = "async" };
  block = [];
}

unfoldable pub sleep_job : {F C E R : Type 0} → Scope F C E R → NamedJob C E R
unfolding named_job expand
sleep_job sc = named_job sc (expand empty_options [] sleep_fn)

-- A line with the job's id and the seconds that are left, and a sleep.
pub data Call : Type 0 where
  printed : ℕ → ℕ → Call
  slept : ℕ → Call

-- The calls of the `while` loop: none where the fuel does not last.
unfoldable pub sleep_loop : ℕ → ℕ → ℕ → Option (List Call)
sleep_loop zero id to_sleep = if ltb 0 to_sleep then none else some []
sleep_loop (suc fuel) id to_sleep =
    let rest = sleep_loop fuel id (to_sleep - 1) in
    if ltb 0 to_sleep
    then (elim rest [
      | none ↦ none
      | some calls ↦ some (printed id to_sleep ∷ slept second ∷ calls)
    ])
    else some []

pub data Ended : Type 0 where
  panicked : Ended
  unfinished : Ended
  ended : List Call → Fallible Database × CurrentJob → Ended

-- `from_str` reads an u64.
unfoldable pub sleep : (String → Option ℕ) → ℕ → CurrentJob → Database → Ended
unfolding json sleep_loop complete
sleep from_str fuel job db = elim (json from_str job) [
  | none ↦ panicked
  | some none ↦ panicked
  | some (some to_sleep) ↦ elim (sleep_loop fuel job.id to_sleep) [
    | none ↦ unfinished
    | some calls ↦ ended calls (complete job db)
  ]
]
