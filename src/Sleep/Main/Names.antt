-- ===== src/Sleep/Main/Names.antt =====
-- The names of the jobs that sleep in `main`: those that the registry has.
use sqlxmq.Prelude.{
  ℕ, String, ◌+◌, ◌*◌, ◌≡◌, inl, inr, List, [], ◌∷◌, Option, none, some, Option-cases, All,
  All-append,
}
use sqlxmq.Runner.{CurrentJob}
use sqlxmq.Runner.Job.{json}
use sqlxmq.Runner.Poll.{direct}
use sqlxmq.Runner.Loop.{round}
use sqlxmq.Registry.{JobRegistry, NamedJob, resolve_job}
use sqlxmq.Spawn.{second}
use sqlxmq.Sleep.Main.{
  MainRun, MainEvent, polled, kept_alive, passed, dispatched, start_task, start_tasks, run_event,
  run_events,
}
use sqlxmq.Sleep.Main.Counts.{wake-All}

module _ {C E R : Type 0} (registry : JobRegistry C E R) (from_str : String → Option ℕ) where
  -- The registry has a job of this one's name.
  abbrev pub IsNamed : CurrentJob × ℕ → Type 0
  IsNamed t = (named : NamedJob C E R) × (resolve_job t.0.name registry ≡ some named)

  start_task-All :
      (now : ℕ) (job : CurrentJob) (s : MainRun)
      → All IsNamed s.sleeping
      → All IsNamed (start_task registry from_str now job s).sleeping
  unfolding start_task
  start_task-All now job s h = elim (Option-cases (resolve_job job.name registry)) [
    | inl u ↦ rw (u, start_task) h
    | inr (named, u) ↦ elim (Option-cases (json from_str job)) [
      | inl e ↦ rw (u, start_task) (rw e h)
      | inr (none, e) ↦ rw (u, start_task) (rw e h)
      | inr (some k, e) ↦
          let last : All IsNamed ((job, now + k * second) ∷ []) = ((named, u), tt) in
          rw (u, start_task) (rw e (All-append IsNamed s.sleeping _ h last))
    ]
  ]

  start_tasks-All :
      (now : ℕ) (jobs : List CurrentJob) (s : MainRun)
      → All IsNamed s.sleeping
      → All IsNamed (start_tasks registry from_str now jobs s).sleeping
  unfolding start_tasks
  start_tasks-All now [] s h = h
  start_tasks-All now (job ∷ jobs) s h =
      start_tasks-All now jobs (start_task registry from_str now job s) (start_task-All now job s h)

  pub run_events-All :
      (shuffle : List (String × String) → List (String × String)) (events : List MainEvent)
      (s : MainRun)
      → All IsNamed s.sleeping
      → All IsNamed (run_events registry from_str shuffle events s).sleeping
  unfolding run_events run_event
  run_events-All shuffle [] s h = h
  run_events-All shuffle (e ∷ events) s h =
      run_events-All shuffle events (run_event registry from_str shuffle e s) (named e)
    where
      named : (e : MainEvent) → All IsNamed (run_event registry from_str shuffle e s).sleeping
      named (polled now) =
          let r = round (direct shuffle now) 0 s.runner s.database in
          start_tasks-All now (dispatched r) (record s { database = r.database; runner = r.runner })
            h
      named (kept_alive now ids duration) = h
      named (passed now) = wake-All IsNamed now s h
