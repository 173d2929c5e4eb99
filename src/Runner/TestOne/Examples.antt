-- ===== src/Runner/TestOne/Examples.antt =====
-- The theorems about `test_one` and `poll_and_dispatch` at a queue of two ordered jobs, before the
-- first of them is due and after.
use sqlxmq.Prelude.{
  ℕ, pos, ◌+ℤ◌, ◌-ℤ◌, as_i32, ◌≡◌, refl, false, ◌&&◌, [], ◌∷◌, some, none, All, ok, err, client,
}
use sqlxmq.Store.{Message, Database}
use sqlxmq.Store.Insert.{latest_message}
use sqlxmq.Store.Poll.{is_ready, subscribes, poll}
use sqlxmq.Store.Examples.{any_json, as_listed, as_listed-Keeps, two_jobs, two_jobs-Reach}
use sqlxmq.Runner.{JobRunner, new_options, start}
use sqlxmq.Runner.Poll.{Connection, direct, poll_and_dispatch}
use sqlxmq.Runner.Poll.Wait.{IsExact, IsSoon, poll_and_dispatch_idle}
use sqlxmq.Runner.Poll.Failure.{FailedAt, IsUntouched, poll_and_dispatch_error}
use sqlxmq.Runner.TestOne.{ran_nothing, test_one}
use sqlxmq.Runner.TestOne.Outcome.{EndsWell, test_one_lem, test_one_idle}

test_one_lem_example :
    EndsWell 30 new_options two_jobs (test_one (direct as_listed 30) new_options two_jobs)
test_one_lem_example =
    test_one_lem any_json as_listed 0 30 new_options two_jobs two_jobs-Reach as_listed-Keeps

-- No job is ready at the time 5: the first is due at 10.
none_ready :
    All
      (λ (m : Message). (is_ready 5 m && subscribes new_options.channel_names m) ≡ false)
      two_jobs.messages
unfolding two_jobs new_options ◌+ℤ◌ as_i32 latest_message
none_ready = (refl, (refl, (refl, tt)))

runs_nothing : test_one (direct as_listed 5) new_options two_jobs ≡ (two_jobs, ran_nothing)
runs_nothing = test_one_idle as_listed 5 new_options two_jobs as_listed-Keeps none_ready

abbrev idle : JobRunner
idle = start new_options

poll_and_dispatch_idle_example :
    (w : ℕ) × (poll_and_dispatch (direct as_listed 5) idle (pos 32) two_jobs
      ≡ record { database = two_jobs; runner = idle; dispatched = []; wait = ok w })
    × IsExact 5 idle.options.channel_names two_jobs.messages w
    × IsSoon 5 idle.options.channel_names two_jobs.messages w
unfolding start
poll_and_dispatch_idle_example =
    poll_and_dispatch_idle as_listed 5 idle 32 two_jobs as_listed-Keeps none_ready

-- A connection that breaks after the poll.
abbrev broken : Connection
broken = record { poll = poll as_listed 30; delete = λ ids db. err client }

abbrev never_committed : Database
never_committed = record two_jobs {
  messages =
      record {
        id = 7;
        created_at = 0;
        attempt_at = some 20;
        attempts = pos 5;
        retry_backoff = 100;
        channel_name = "";
        channel_args = "";
        commit_interval = some 20;
        after_message_id = none;
      }
      ∷ [];
}

poll_and_dispatch_error_example :
    IsUntouched idle (poll_and_dispatch broken idle (pos 32) never_committed)
    × FailedAt broken idle
        (pos 32)
        never_committed
        client
        (poll_and_dispatch broken idle (pos 32) never_committed).database
unfolding poll_and_dispatch poll start new_options ◌-ℤ◌
poll_and_dispatch_error_example =
    poll_and_dispatch_error broken idle (pos 32) never_committed client refl
