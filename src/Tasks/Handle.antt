-- ===== src/Tasks/Handle.antt =====
-- src/runner.rs: JobRunnerHandle, which holds the task of the main loop, and its handle stopped and
-- dropped.
use sqlxmq.Prelude.{
  ℕ, zero, suc, ◌≡◌, refl, List, [], ◌∷◌, ◌++◌, Option, none, some, ◌==◌, if◌then◌else◌, false,
  arith,
}
use sqlxmq.Runner.{JobRunnerOptions, JobRunner, start}
use sqlxmq.Tasks.{Event, aborted, awaited, OwnedHandle, new, drop, stop}

pub record JobRunnerHandle : Type 0 where
  pub runner : JobRunner
  pub handle : Option OwnedHandle

-- The handle that `run` returns, where the main loop was spawned as `task`.
unfoldable pub run : JobRunnerOptions → ℕ → JobRunnerHandle
unfolding new start
run options task = record { runner = start options; handle = some (new task) }

-- `JobRunnerHandle::stop`: none where it panics.
unfoldable pub stop_runner : JobRunnerHandle → Option (JobRunnerHandle × List Event)
unfolding stop
stop_runner h = elim h.handle [
  | none ↦ some (h, [])
  | some handle ↦ elim (stop handle) [
    | none ↦ none
    | some events ↦ some (record h { handle = none }, events)
  ]
]

-- What is left of a handle is dropped with it.
unfoldable pub drop_runner : JobRunnerHandle → List Event
unfolding drop
drop_runner h = elim h.handle [ none ↦ [] | some handle ↦ drop handle ]

-- The handle stopped so many times, and then dropped.
unfoldable pub stop_times : ℕ → JobRunnerHandle → Option (List Event)
unfolding stop_runner drop_runner
stop_times zero h = some (drop_runner h)
stop_times (suc n) h = elim (stop_runner h) [
  | none ↦ none
  | some (h', events) ↦ elim (stop_times n h') [ none ↦ none | some rest ↦ some (events ++ rest) ]
]

stopped : (n : ℕ) (r : JobRunner) → stop_times n (record { runner = r; handle = none }) ≡ some []
unfolding stop_times
stopped zero r = refl
stopped (suc n) r = rw (stopped n r) refl

-- However often the handle of a runner is stopped before it is dropped, nothing panics, and the task
-- of its main loop is aborted exactly once: by the drop, if it was never stopped, and else by the
-- first stop, which alone waits for the task to end.
pub stop_times_lem :
    (n : ℕ) (options : JobRunnerOptions) (task : ℕ)
    → stop_times n (run options task)
      ≡ some (if n == 0 then aborted task ∷ [] else aborted task ∷ awaited task ∷ [])
unfolding stop_times run
stop_times_lem zero options task = refl
stop_times_lem (suc n) options task =
    let more : (suc n == 0) ≡ false = ground arith in rw (stopped n (start options)) (rw more refl)
