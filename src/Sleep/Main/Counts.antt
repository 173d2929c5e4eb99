-- ===== src/Sleep/Main/Counts.antt =====
-- The count of running jobs in `main`, and the jobs that sleep.
use sqlxmq.Prelude.{
  ℕ, suc, ℤ, String, ◌+◌, ◌*◌, ◌<◌, ◌≡◌, refl, ap, inl, inr, List, [], ◌∷◌, ◌++◌, Option, none,
  some, Option-cases, Bool-cases, Fallible-cases, length, leb, ltb, All, All-append, arith,
}
use sqlxmq.Store.{Database}
use sqlxmq.Store.Poll.{PolledMessage}
use sqlxmq.Runner.{CurrentJob, JobRunner, drop_job}
use sqlxmq.Runner.Job.{json}
use sqlxmq.Runner.Poll.{
  Connection, direct, poll_and_dispatch, delete_and_dispatch, dispatch_messages, ids_to_delete,
}
use sqlxmq.Runner.Poll.Dispatch.{dispatch_all_running}
use sqlxmq.Runner.Loop.{round, after_poll, batch_size}
use sqlxmq.Registry.{JobRegistry, resolve_job}
use sqlxmq.Spawn.{second}
use sqlxmq.Sleep.Main.{
  MainRun, MainEvent, polled, kept_alive, passed, dispatched, wake, wake_task, wake_tasks,
  start_task, start_tasks, run_event, run_events,
}

-- The runner counts the jobs that sleep and `more` others.
abbrev pub Counts : ℕ → MainRun → Type 0
Counts more s = s.runner.running_jobs ≡ length s.sleeping + more

length-append_one {ℓ} :
    {A : Type ℓ} (xs : List A) (x : A) → length (xs ++ (x ∷ [])) ≡ suc (length xs)
length-append_one [] x = refl
length-append_one (y ∷ xs) x = ap suc (length-append_one xs x)

drop_job-running : (r : JobRunner) (n : ℕ) → r.running_jobs ≡ suc n → (drop_job r).running_jobs ≡ n
unfolding drop_job
drop_job-running r n e = ground arith

dispatch_messages-running :
    (r : JobRunner) (ms : List PolledMessage) (db : Database)
    → (dispatch_messages r ms db).runner.running_jobs
      ≡ r.running_jobs + length (dispatch_messages r ms db).dispatched
unfolding dispatch_messages
dispatch_messages-running r ms db = (dispatch_all_running r ms).0

delete_and_dispatch-running :
    (c : Connection) (r : JobRunner) (ms : List PolledMessage) (ids : List ℕ) (db : Database)
    → (delete_and_dispatch c r ms ids db).runner.running_jobs
      ≡ r.running_jobs + length (delete_and_dispatch c r ms ids db).dispatched
unfolding delete_and_dispatch
delete_and_dispatch-running c r ms [] db = dispatch_messages-running r ms db
delete_and_dispatch-running c r ms (id ∷ ids) db = elim (Fallible-cases (c.delete (id ∷ ids) db)) [
  | inl (x, e) ↦ rw (e, delete_and_dispatch) (omega arith)
  | inr (db', e) ↦ rw (e, delete_and_dispatch) (dispatch_messages-running r ms db')
]

poll_and_dispatch-running :
    (c : Connection) (r : JobRunner) (n : ℤ) (db : Database)
    → (poll_and_dispatch c r n db).runner.running_jobs
      ≡ r.running_jobs + length (poll_and_dispatch c r n db).dispatched
unfolding poll_and_dispatch
poll_and_dispatch-running c r n db = elim (Fallible-cases (c.poll r.options.channel_names n db)) [
  | inl (x, e) ↦ rw (e, poll_and_dispatch) (omega arith)
  | inr ((db', ms), e) ↦
      rw (e, poll_and_dispatch) (delete_and_dispatch-running c r ms (ids_to_delete ms) db')
]

round-running :
    (c : Connection) (failures : ℕ) (r : JobRunner) (db : Database)
    → (round c failures r db).runner.running_jobs
      ≡ r.running_jobs + length (dispatched (round c failures r db))
unfolding round after_poll
round-running c failures r db = elim (Bool-cases (ltb r.running_jobs r.options.min_concurrency)) [
  | inl e ↦ rw (e, round) (poll_and_dispatch-running c r (batch_size r.options r.running_jobs) db)
  | inr e ↦ rw (e, round) (omega arith)
]

start_task-Counts :
    {C E R : Type 0} (registry : JobRegistry C E R) (from_str : String → Option ℕ) (now n : ℕ)
    (job : CurrentJob) (s : MainRun)
    → Counts (suc n) s
    → Counts n (start_task registry from_str now job s)
unfolding start_task
start_task-Counts registry from_str now n job s h =
    elim (Option-cases (resolve_job job.name registry)) [
      | inl u ↦ rw (u, start_task) (drop_job-running s.runner _ (omega arith))
      | inr (named, u) ↦ elim (Option-cases (json from_str job)) [
        | inl e ↦ rw (u, start_task) (rw e (drop_job-running s.runner _ (omega arith)))
        | inr (none, e) ↦ rw (u, start_task) (rw e (drop_job-running s.runner _ (omega arith)))
        | inr (some k, e) ↦
            rw (u, start_task)
              (rw e (omega (arith, length-append_one s.sleeping (job, now + k * second))))
      ]
    ]

start_tasks-Counts :
    {C E R : Type 0} (registry : JobRegistry C E R) (from_str : String → Option ℕ) (now : ℕ)
    (jobs : List CurrentJob) (s : MainRun)
    → Counts (length jobs) s
    → Counts 0 (start_tasks registry from_str now jobs s)
unfolding start_tasks
start_tasks-Counts registry from_str now [] s h = h
start_tasks-Counts registry from_str now (job ∷ jobs) s h =
    start_tasks-Counts registry from_str now jobs _
      (start_task-Counts registry from_str now (length jobs) job s h)

-- What is left to sleep ends later.
abbrev pub SleepsOn : ℕ → MainRun → Type 0
SleepsOn now s = All (λ (t : CurrentJob × ℕ). now < t.1) s.sleeping

wake_task-Counts :
    (now n : ℕ) (job : CurrentJob) (end : ℕ) (s : MainRun)
    → Counts (suc n) s
    → SleepsOn now s
    → Counts n (wake_task now (job, end) s) × SleepsOn now (wake_task now (job, end) s)
unfolding wake_task
wake_task-Counts now n job end s h on = elim (Bool-cases (leb end now)) [
  | inl e ↦ rw (e, wake_task) (drop_job-running s.runner _ (omega arith), on)
  | inr e ↦
      rw (e, wake_task)
        (
          omega (arith, length-append_one s.sleeping (job, end)),
          All-append _ s.sleeping ((job, end) ∷ []) on (ground arith, tt),
        )
]

wake_tasks-Counts :
    (now : ℕ) (ts : List (CurrentJob × ℕ)) (s : MainRun)
    → Counts (length ts) s
    → SleepsOn now s
    → Counts 0 (wake_tasks now ts s) × SleepsOn now (wake_tasks now ts s)
unfolding wake_tasks
wake_tasks-Counts now [] s h on = (h, on)
wake_tasks-Counts now ((job, end) ∷ ts) s h on =
    let (h', on') = wake_task-Counts now (length ts) job end s h on in
    wake_tasks-Counts now ts (wake_task now (job, end) s) h' on'

wake_task-All :
    (P : CurrentJob × ℕ → Type 0) (now : ℕ) (job : CurrentJob) (end : ℕ) (s : MainRun)
    → P (job, end)
    → All P s.sleeping
    → All P (wake_task now (job, end) s).sleeping
unfolding wake_task
wake_task-All P now job end s p h = elim (Bool-cases (leb end now)) [
  | inl e ↦ rw (e, wake_task) h
  | inr e ↦ rw (e, wake_task) (All-append P s.sleeping ((job, end) ∷ []) h (p, tt))
]

wake_tasks-All :
    (P : CurrentJob × ℕ → Type 0) (now : ℕ) (ts : List (CurrentJob × ℕ)) (s : MainRun)
    → All P ts
    → All P s.sleeping
    → All P (wake_tasks now ts s).sleeping
unfolding wake_tasks
wake_tasks-All P now [] s p h = h
wake_tasks-All P now ((job, end) ∷ ts) s p h =
    wake_tasks-All P now ts (wake_task now (job, end) s) p.1 (wake_task-All P now job end s p.0 h)

-- A job that sleeps on has slept before.
pub wake-All :
    (P : CurrentJob × ℕ → Type 0) (now : ℕ) (s : MainRun)
    → All P s.sleeping
    → All P (wake now s).sleeping
wake-All P now s h = wake_tasks-All P now s.sleeping (record s { sleeping = [] }) h tt

pub wake-Counts :
    (now : ℕ) (s : MainRun) → Counts 0 s → Counts 0 (wake now s) × SleepsOn now (wake now s)
wake-Counts now s h = wake_tasks-Counts now s.sleeping _ (omega arith) tt

polled-Counts :
    {C E R : Type 0} (registry : JobRegistry C E R) (from_str : String → Option ℕ)
    (shuffle : List (String × String) → List (String × String)) (now : ℕ) (s : MainRun)
    → Counts 0 s
    → Counts 0 (run_event registry from_str shuffle (polled now) s)
unfolding run_event
polled-Counts registry from_str shuffle now s h =
    let r = round (direct shuffle now) 0 s.runner s.database in
    let counted : r.runner.running_jobs ≡ length s.sleeping + length (dispatched r) =
      omega (arith, h, round-running (direct shuffle now) 0 s.runner s.database) in
    start_tasks-Counts registry from_str now (dispatched r)
      (record s { database = r.database; runner = r.runner }) counted

pub run_events-Counts :
    {C E R : Type 0} (registry : JobRegistry C E R) (from_str : String → Option ℕ)
    (shuffle : List (String × String) → List (String × String)) (events : List MainEvent)
    (s : MainRun)
    → Counts 0 s
    → Counts 0 (run_events registry from_str shuffle events s)
unfolding run_events run_event
run_events-Counts registry from_str shuffle [] s h = h
run_events-Counts registry from_str shuffle (e ∷ events) s h =
    run_events-Counts registry from_str shuffle events (run_event registry from_str shuffle e s)
      (counted e)
  where
    counted : (e : MainEvent) → Counts 0 (run_event registry from_str shuffle e s)
    counted (polled now) = polled-Counts registry from_str shuffle now s h
    counted (kept_alive now ids duration) = h
    counted (passed now) = (wake-Counts now s h).0
