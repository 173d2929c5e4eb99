-- ===== src/Spawn/Examples.antt =====
-- The theorems about spawning at small queues.
use sqlxmq.Prelude.{
  ◌+ℤ◌, as_i32, ◌≡◌, refl, ◌⊎◌, true, [], ◌∷◌, ◌++◌, List, ◌≢◌, String, none, some, ok, Memᴰ,
}
use sqlxmq.Store.{Message, Database, uuid_nil, unique_violation, after_index}
use sqlxmq.Retry.{should_retry}
use sqlxmq.Store.Insert.{latest_message, insert_seeing}
use sqlxmq.Store.Reach.{empty_queue, nil_message}
use sqlxmq.Store.Examples.{any_json, or_start, second_job, one_job, two_jobs, two_jobs-Reach}
use sqlxmq.Runner.{JobRunnerOptions, new_options, set_channel_names}
use sqlxmq.Spawn.{JobBuilder, spawn, spawn_seeing, commit, set_commit_interval}
use sqlxmq.Spawn.Commit.{spawn-commit}
use sqlxmq.Spawn.Notify.{Hears, spawn_notifies}
use sqlxmq.Spawn.Wake.{delete_wakes}
use sqlxmq.Store.Channel.{InChannel}
use sqlxmq.Store.Remove.{delete}
use sqlxmq.Spawn.Stale.{IsTaken, IsGone, spawn_error}

abbrev uncommitted_job : Database
unfolding one_job
uncommitted_job =
    (or_start (spawn any_json 20 (set_commit_interval (some 90) second_job) one_job)
      (empty_queue 0, 0)).0

spawn-commit_example :
    (db₂ : Database) × (commit (2 ∷ []) uncommitted_job ≡ ok db₂)
    × (spawn any_json 20 (set_commit_interval none second_job) one_job ≡ ok (db₂, 2))
unfolding uncommitted_job ◌+ℤ◌ as_i32 latest_message set_commit_interval second_job
spawn-commit_example = spawn-commit any_json 20 90 second_job one_job uncommitted_job 2 refl

abbrev foo_runner : JobRunnerOptions
unfolding new_options set_channel_names
foo_runner = set_channel_names ("foo" ∷ []) new_options

spawn_notifies_example : Hears foo_runner two_jobs.notified
unfolding two_jobs second_job foo_runner ◌+ℤ◌ as_i32 latest_message
spawn_notifies_example =
    spawn_notifies any_json 20 2 second_job one_job two_jobs foo_runner
      (record (nil_message 0) { channel_name = "foo" }) refl refl refl

-- Of two jobs that were spawned at once, the second to insert finds that the first has got the place.
abbrev third_job : JobBuilder
unfolding second_job
third_job = record second_job { id = 3 }

spawn_error_example :
    (third_job.ordered ≡ true)
    × (IsTaken "foo" "" (latest_message "foo" "" one_job.messages) two_jobs.messages
        ⊎ IsGone (latest_message "foo" "" one_job.messages) two_jobs.messages)
    × (latest_message "foo" "" two_jobs.messages ≢ latest_message "foo" "" one_job.messages)
unfolding third_job second_job one_job two_jobs spawn_seeing insert_seeing ◌+ℤ◌ as_i32
    latest_message should_retry
spawn_error_example =
    spawn_error two_jobs-Reach 20 third_job one_job.messages (unique_violation after_index) refl
      refl

-- The tables after the first of the two jobs was deleted.
abbrev one_left : Database
unfolding two_jobs delete
one_left = or_start (delete (1 ∷ []) two_jobs) (empty_queue 0)

delete_wakes_example :
    (m : Message) × (sent : List String) × Memᴰ m one_left.messages
    × (m.id ≡ 2)
    × InChannel "foo" "" m
    × (m.after_message_id ≡ some uuid_nil)
    × (one_left.notified ≡ sent ++ two_jobs.notified)
    × Hears foo_runner sent
unfolding one_left two_jobs-Reach foo_runner ◌+ℤ◌ as_i32 latest_message
delete_wakes_example =
    delete_wakes two_jobs-Reach "foo" "" (1 ∷ []) one_left 1 2 (2 ∷ []) [] foo_runner
      (record (nil_message 0) { channel_name = "foo" }) refl refl refl refl refl refl refl
