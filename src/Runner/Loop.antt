-- ===== src/Runner/Loop.antt =====
-- `main_loop`, `start_listener` and `wait_jobs_finish` of src/runner.rs.
pub mod Concurrency
pub mod Backoff
pub mod Rounds
pub mod Finish
use sqlxmq.Prelude.{
  ℕ, zero, suc, String, ℤ, as_i32, ◌+◌, ◌-◌, ◌*◌, ◌%◌, ◌^◌, Bool, true, false, ◌||◌, ◌&&◌, List, [],
  ◌∷◌, map, Option, none, some, ltb, concat, if◌then◌else◌, Fallible, ok, err,
}
use sqlxmq.Store.{Database}
use sqlxmq.Runner.{JobRunner, JobRunnerOptions, notify_one}
use sqlxmq.Runner.Poll.{Connection, Polled, poll_and_dispatch}

-- `(options.max_concurrency - running_jobs) as i32`; the difference of two usize wraps.
unfoldable pub batch_size : JobRunnerOptions → ℕ → ℤ
unfolding as_i32
batch_size o running =
    as_i32 ((o.max_concurrency + 18446744073709551616 - running) % 18446744073709551616)

-- `Duration::from_millis(50 << failures)` of a u64, in microseconds: the shift takes the low six
-- bits of its count, and loses what passes 64 bits.
unfoldable pub backoff : ℕ → ℕ
backoff failures = 50 * 2 ^ (failures % 64) % 18446744073709551616 * 1000

-- A round of the loop up to its wait: the failures in a row, what the poll left, if there was one,
-- and the time to wait for a notification.
pub record Round : Type 0 where
  pub failures : ℕ
  pub database : Database
  pub runner : JobRunner
  pub polled : Option Polled
  pub timeout : ℕ

unfoldable pub after_poll : ℕ → Polled → Round
unfolding backoff
after_poll failures p = record {
  failures = elim p.wait [ ok _ ↦ 0 | err _ ↦ failures + 1 ];
  database = p.database;
  runner = p.runner;
  polled = some p;
  timeout = elim p.wait [ ok wait ↦ wait | err _ ↦ backoff (failures + 1) ];
}

unfoldable pub round : Connection → ℕ → JobRunner → Database → Round
unfolding after_poll batch_size poll_and_dispatch
round c failures r db =
    if ltb r.running_jobs r.options.min_concurrency
    then after_poll failures (poll_and_dispatch c r (batch_size r.options r.running_jobs) db)
    else (record {
      failures = failures;
      database = db;
      runner = r;
      polled = none;
      timeout = 60000000;
    })

-- The channels that `start_listener` listens on.
unfoldable pub listen_channels : JobRunnerOptions → List String
listen_channels o = elim o.channel_names [
  | none ↦ "mq" ∷ []
  | some channels ↦ map (λ c. concat "mq_" c) channels
]

-- A round of the listener's loop: its state is `num_errors`, and `received` says whether
-- `listener.recv()` gave a notification; it is not called while there are errors.
pub record Listened : Type 0 where
  pub num_errors : ℕ
  pub runner : JobRunner
  pub slept : ℕ

unfoldable pub listen : ℕ → Bool → JobRunner → Listened
listen num_errors received r =
    if ltb 0 num_errors || received
    then record { num_errors = 0; runner = notify_one r; slept = 0 }
    else record { num_errors = num_errors + 1; runner = r; slept = 2 ^ num_errors * 1000000 }

unfoldable pub listen_all : ℕ → List Bool → JobRunner → List ℕ
unfolding listen
listen_all num_errors [] r = []
listen_all num_errors (received ∷ rest) r =
    let s = listen num_errors received r in s.slept ∷ listen_all s.num_errors rest s.runner

-- `wait_jobs_finish`: the counts of running jobs as each test reads them, 10 ms apart. The number
-- of sleeps; the loop ends with the counts, when no job runs, or when the timeout has passed.
unfoldable pub wait_jobs_finish : ℕ → ℕ → List ℕ → ℕ
wait_jobs_finish timeout elapsed [] = 0
wait_jobs_finish timeout elapsed (n ∷ ns) =
    let rest = suc (wait_jobs_finish timeout (elapsed + 10000) ns) in
    if ltb 0 n && ltb elapsed timeout then rest else 0
