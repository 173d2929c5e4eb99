-- ===== src/Runner/Examples.antt =====
-- The theorems about the job runner at small runs, and a run of its call of `mq_poll`.
use sqlxmq.Prelude.{
  ℕ, pos, ◌+ℤ◌, ◌-ℤ◌, as_i32, ◌≡◌, refl, inl, inr, true, false, List, [], ◌∷◌, none, some, All,
  arith, ◌≤◌, ◌<◌, take, ◌*◌, ◌+◌, ◌-◌,
}
use sqlxmq.Store.{Message}
use sqlxmq.Store.Insert.{latest_message}
use sqlxmq.Store.Poll.{PolledMessage, is_due, time_difference}
use sqlxmq.Store.Reach.{Reach-IsConsistent}
use sqlxmq.Store.Examples.{
  any_json, as_listed, as_listed-Keeps, two_jobs, two_jobs-Reach, polled_jobs,
}
use sqlxmq.Runner.{JobRunner, JobRunnerOptions, new_options, set_concurrency, start, drop_job}
use sqlxmq.Runner.Job.Complete.{Completes, poll_complete}
use sqlxmq.Runner.Loop.Rounds.{at_start, round_refines}
use sqlxmq.Runner.Poll.{direct, dispatch_all, to_duration}
use sqlxmq.Runner.Poll.Duration.{to_duration-time_difference}
use sqlxmq.Runner.KeepAlive.{Wakeup, Kept, keep_job_alive}
use sqlxmq.Runner.KeepAlive.Lease.{keep_job_alive-All}
use sqlxmq.Runner.Loop.Finish.{wait_jobs_finish_lem}
use sqlxmq.Runner.Loop.{wait_jobs_finish, batch_size, round, listen_all}
use sqlxmq.Runner.Loop.Backoff.{listen_all_bounded}
use sqlxmq.Runner.Loop.Concurrency.{
  Loop, Reach, here, next, full, loads_few, loads_full, dispatches, drops, notifies, wakes, started,
  running_bounded, wakeup_kept,
}

abbrev two_at_once : JobRunnerOptions
unfolding set_concurrency new_options
two_at_once = set_concurrency 1 2 new_options

abbrev idle : JobRunner
unfolding start
idle = start two_at_once

poll_complete_example : All (λ job. Completes job polled_jobs.0) (dispatch_all idle polled_jobs.1).1
unfolding polled_jobs ◌+ℤ◌ as_i32 latest_message ◌-ℤ◌
poll_complete_example =
    poll_complete any_json as_listed 0 30 none (pos 5) two_jobs polled_jobs.0 polled_jobs.1 idle
      two_jobs-Reach as_listed-Keeps refl

abbrev leased : Message
leased = record {
  id = 1;
  created_at = 0;
  attempt_at = some 1100;
  attempts = pos 4;
  retry_backoff = 2000;
  channel_name = "";
  channel_args = "";
  commit_interval = none;
  after_message_id = none;
}

abbrev wakeups : List Wakeup
wakeups = record { late = 3; succeeds = true } ∷ record { late = 400; succeeds = true } ∷ []

keep_job_alive-All_example :
    All
      (λ (k : Kept). (t : ℕ) → t ≤ k.time → is_due t k.row ≡ false)
      (keep_job_alive 100 1000 wakeups leased)
keep_job_alive-All_example =
    keep_job_alive-All 100 1000 wakeups leased (inr refl) (omega arith, omega arith)

-- A job is dispatched and runs while the loop reads the count; then it is dropped.
abbrev one_row : PolledMessage
one_row = record {
  id = some 1;
  is_committed = some true;
  name = some "foo";
  payload_json = none;
  payload_bytes = none;
  retry_backoff = some (record { months = pos 0; days = pos 0; microseconds = pos 1000000 });
  wait_time = some (record { months = pos 0; days = pos 0; microseconds = pos 1000000 });
}

abbrev running : JobRunner
unfolding dispatch_all
running = (dispatch_all idle (one_row ∷ [])).0

abbrev woken : JobRunner
woken = record running { permit = false }

abbrev dropped : JobRunner
unfolding drop_job
dropped = drop_job woken

abbrev busy : Loop
busy = record { phase = full; runner = dropped }

small : two_at_once.max_concurrency ≤ 2147483647
unfolding two_at_once
small = omega arith

ordered : two_at_once.min_concurrency ≤ two_at_once.max_concurrency
unfolding two_at_once
ordered = omega arith

-- The loop polls a job, reads that it runs, and the job finishes before the loop waits.
busy-Reach : Reach (started two_at_once ordered small) busy
unfolding dropped running batch_size as_i32 start two_at_once
busy-Reach =
    next
      (next
        (next
          (next
            (next (next here (loads_few refl refl))
              (dispatches 0 2 (one_row ∷ []) refl refl (omega arith)))
            notifies)
          (wakes (inl refl) refl))
        (loads_full refl refl))
      (drops (omega arith))

running_bounded_example : busy.runner.running_jobs ≤ two_at_once.max_concurrency
running_bounded_example = running_bounded two_at_once ordered small busy-Reach

wakeup_kept_example : busy.runner.permit ≡ true
unfolding dropped running idle two_at_once
wakeup_kept_example = wakeup_kept two_at_once ordered small busy busy-Reach refl (omega arith)

to_duration-time_difference_example :
    to_duration (time_difference 300000000000 5) ≡ 300000000000 - 5
to_duration-time_difference_example = to_duration-time_difference 300000000000 5

listen_all_bounded_example :
    All (λ slept. slept ≤ 1000000) (listen_all 0 (false ∷ false ∷ true ∷ []) idle)
listen_all_bounded_example = listen_all_bounded (false ∷ false ∷ true ∷ []) 0 idle

round_refines_example :
    (l : Loop) × Reach (at_start idle) l
    × (l.runner ≡ (round (direct as_listed 30) 0 idle two_jobs).runner)
unfolding idle start two_at_once
round_refines_example =
    round_refines as_listed 30 0 idle two_jobs (Reach-IsConsistent any_json two_jobs-Reach).distinct
      ordered small

sleeps_in_time : (0 + 1 * 10000 < 15000) × All (λ n. 0 < n) (take 2 (3 ∷ 2 ∷ 2 ∷ 1 ∷ []))
unfolding wait_jobs_finish
sleeps_in_time = wait_jobs_finish_lem 15000 0 (3 ∷ 2 ∷ 2 ∷ 1 ∷ []) 1 refl
