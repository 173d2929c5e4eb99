-- ===== src/Runner/Poll/Examples.antt =====
-- A call of poll_and_dispatch at a queue with a committed job and one that was never committed.
use sqlxmq.Prelude.{ℕ, pos, ◌+ℤ◌, ◌-ℤ◌, as_i32, ◌≡◌, refl, List, [], some, All, ok, length}
use sqlxmq.Store.{Database}
use sqlxmq.Store.Insert.{latest_message}
use sqlxmq.Store.Poll.{PolledMessage, poll}
use sqlxmq.Store.Consistent.{IsConsistent}
use sqlxmq.Store.Reach.{Reach, here, next, spawned, empty_queue}
use sqlxmq.Store.Examples.{any_json, as_listed, as_listed-Keeps, or_start, first_job, one_job}
use sqlxmq.Spawn.{JobBuilder, new_with_id, set_commit_interval, spawn}
use sqlxmq.Runner.{JobRunner, new_options, start}
use sqlxmq.Runner.Poll.{direct, poll_and_dispatch}
use sqlxmq.Runner.Poll.Outcome.{IsHandled, poll_and_dispatch_lem}

abbrev uncommitted_job : JobBuilder
unfolding new_with_id set_commit_interval
uncommitted_job = set_commit_interval (some 90) (new_with_id 3 "c")

abbrev jobs : Database
unfolding one_job spawn
jobs = (or_start (spawn any_json 20 uncommitted_job one_job) (empty_queue 0, 0)).0

jobs-Reach : Reach any_json (empty_queue 0) jobs
unfolding jobs one_job first_job uncommitted_job ◌+ℤ◌ as_i32 latest_message
jobs-Reach = next (next here (spawned 10 first_job 1 refl)) (spawned 20 uncommitted_job 3 refl)

abbrev runner : JobRunner
unfolding new_options start
runner = start new_options

abbrev polled : Database × List PolledMessage
unfolding jobs poll
polled = or_start (poll as_listed 200 runner.options.channel_names (pos 5) jobs) (empty_queue 0, [])

two_rows : length polled.1 ≡ 2
unfolding polled one_job first_job uncommitted_job ◌+ℤ◌ as_i32 latest_message ◌-ℤ◌ runner
two_rows = refl

poll_and_dispatch_lem_example :
    let p = poll_and_dispatch (direct as_listed 200) runner (pos 5) jobs in
    ((w : ℕ) × (p.wait ≡ ok w)) × All (IsHandled p) polled.1 × IsConsistent p.database.messages
unfolding polled one_job first_job uncommitted_job ◌+ℤ◌ as_i32 latest_message ◌-ℤ◌ runner
poll_and_dispatch_lem_example =
    poll_and_dispatch_lem any_json as_listed 0 200 runner (pos 5) jobs polled.0 polled.1 jobs-Reach
      as_listed-Keeps refl
