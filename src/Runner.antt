-- ===== src/Runner.antt =====
-- src/runner.rs: the options of a job runner, its shared state, and a job that it runs. What the
-- runner shares through atomics and `Notify` is a record that each operation returns anew.
pub mod Job
pub mod Poll
pub mod Loop
pub mod KeepAlive
pub mod TestOne
mod Examples
use sqlxmq.Prelude.{
  ℕ, String, ◌-◌, Bool, true, false, List, Option, none, some, ◌==◌, if◌then◌else◌,
}

pub record JobRunnerOptions : Type 0 where
  pub min_concurrency : ℕ
  pub max_concurrency : ℕ
  pub channel_names : Option (List String)
  pub keep_alive : Bool

-- `JobRunner`; `permit` is that of `notify`, which holds at most one.
pub record JobRunner : Type 0 where
  pub options : JobRunnerOptions
  pub running_jobs : ℕ
  pub permit : Bool

-- The task behind a job's `keep_alive`: that of `poll_and_dispatch` calls mq_keep_alive, and began
-- with the interval; that of `test_one` sleeps until it is dropped.
pub data Task : Type 0 where
  keeps_alive : ℕ → Task
  signals_end : Task

-- `CurrentJob`; a dropped handle of a task stops the task.
pub record CurrentJob : Type 0 where
  pub id : ℕ
  pub name : String
  pub payload_json : Option String
  pub payload_bytes : Option (List ℕ)
  pub keep_alive : Option Task

unfoldable pub new_options : JobRunnerOptions
new_options = record {
  min_concurrency = 16;
  max_concurrency = 32;
  channel_names = none;
  keep_alive = true;
}

unfoldable pub set_concurrency : ℕ → ℕ → JobRunnerOptions → JobRunnerOptions
set_concurrency min_concurrency max_concurrency o = record o {
  min_concurrency = min_concurrency;
  max_concurrency = max_concurrency;
}

unfoldable pub set_channel_names : List String → JobRunnerOptions → JobRunnerOptions
set_channel_names channel_names o = record o { channel_names = some channel_names }

unfoldable pub set_keep_alive : Bool → JobRunnerOptions → JobRunnerOptions
set_keep_alive keep_alive o = record o { keep_alive = keep_alive }

-- The runner that `run` and `test_one` make.
unfoldable pub start : JobRunnerOptions → JobRunner
start o = record { options = o; running_jobs = 0; permit = false }

-- `notify.notify_one()`
abbrev pub notify_one : JobRunner → JobRunner
notify_one r = record r { permit = true }

-- `fetch_sub(1)` on an AtomicUsize, which wraps.
abbrev pub pred_usize : ℕ → ℕ
pred_usize n = if n == 0 then 18446744073709551615 else n - 1

-- `Drop for CurrentJob`
unfoldable pub drop_job : JobRunner → JobRunner
drop_job r =
    let r' = record r { running_jobs = pred_usize r.running_jobs } in
    if r.running_jobs == r.options.min_concurrency then notify_one r' else r'

-- `JobRunnerHandle::num_running_jobs`
unfoldable pub num_running_jobs : JobRunner → ℕ
num_running_jobs r = r.running_jobs
