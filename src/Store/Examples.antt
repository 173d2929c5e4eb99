-- ===== src/Store/Examples.antt =====
-- The theorems about the tables at small queues, and runs of the statements.
use sqlxmq.Prelude.{
  ℕ, String, pos, ◌+ℤ◌, ◌-ℤ◌, as_i32, ◌≡◌, ◌≢◌, refl, Memᴰ, true, ◌&&◌, not, List, [], ◌∷◌, ◌++◌,
  map, Option, none, some, ◌==◌, str_eq, any, filter, length, All, arith, Fallible, ok, err, ◌≤◌,
}
use sqlxmq.Store.{Message, Database, uuid_nil}
use sqlxmq.Store.Insert.{latest_message}
use sqlxmq.Store.Schedule.{commit_message, keep_message_alive, checkpoint_message}
use sqlxmq.Store.Schedule.TwoPhase.{commit_message-keep_message_alive}
use sqlxmq.Store.Remove.{clear}
use sqlxmq.Store.Poll.{PolledMessage, poll, claim}
use sqlxmq.Store.Poll.Concurrent.{SameMessage, claim_disjoint}
use sqlxmq.Store.Poll.Select.{Channel, Keeps, IsReadyId, RowOf, poll_ready}
use sqlxmq.Store.Poll.Bound.{message_rows, poll_bounded}
use sqlxmq.Store.Poll.Retries.{claims, claims_schedule, checkpoint_revives}
use sqlxmq.Store.Consistent.{IsConsistent}
use sqlxmq.Store.Consistent.Clear.{payloads_left, clear_lem}
use sqlxmq.Store.Poll.Serve.{NonEmpty, poll_serves}
use sqlxmq.Store.Reach.{Reach, here, next, spawned, empty_queue, Reach-IsConsistent}
use sqlxmq.Store.Reach.Stored.{IsStored, Reach-IsStored}
use sqlxmq.Spawn.{JobBuilder, new_with_id, set_ordered, set_channel_name, spawn}

-- Takes any text for JSON, as it is written.
abbrev pub any_json : String → Option String
any_json text = some text

abbrev pub as_listed : List Channel → List Channel
as_listed cs = cs

pub as_listed-Keeps : Keeps as_listed
as_listed-Keeps P xs h = h

abbrev pub or_start {ℓ} : {A : Type ℓ} → Fallible A → A → A
or_start (ok a) d = a
or_start (err e) d = d

unfoldable pub first_job : JobBuilder
unfolding new_with_id set_ordered set_channel_name
first_job = set_channel_name "foo" (set_ordered true (new_with_id 1 "a"))

unfoldable pub second_job : JobBuilder
unfolding new_with_id set_ordered set_channel_name
second_job = set_channel_name "foo" (set_ordered true (new_with_id 2 "b"))

-- One ordered job in the queue, and two.
unfoldable pub one_job : Database
unfolding first_job spawn
one_job = (or_start (spawn any_json 10 first_job (empty_queue 0)) (empty_queue 0, 0)).0

unfoldable pub two_jobs : Database
unfolding one_job second_job
two_jobs = (or_start (spawn any_json 20 second_job one_job) (empty_queue 0, 0)).0

unfoldable pub two_jobs-Reach : Reach any_json (empty_queue 0) two_jobs
unfolding two_jobs ◌+ℤ◌ as_i32 latest_message
two_jobs-Reach = next (next here (spawned 10 first_job 1 refl)) (spawned 20 second_job 2 refl)

unfoldable pub polled_jobs : Database × List PolledMessage
unfolding two_jobs poll
polled_jobs = or_start (poll as_listed 30 none (pos 5) two_jobs) (empty_queue 0, [])

-- Of two ordered jobs of a channel, both of them due, a poll returns the first alone.
polls_first : map (λ (p : PolledMessage). p.id) polled_jobs.1 ≡ some 1 ∷ []
unfolding polled_jobs ◌+ℤ◌ as_i32 latest_message ◌-ℤ◌
polls_first = refl

Reach-IsConsistent_example : IsConsistent two_jobs.messages
Reach-IsConsistent_example = Reach-IsConsistent any_json two_jobs-Reach

Reach-IsStored_example : IsStored two_jobs
Reach-IsStored_example = Reach-IsStored any_json two_jobs-Reach

poll_ready_example : All (RowOf (IsReadyId 30 none two_jobs.messages)) polled_jobs.1
unfolding polled_jobs ◌+ℤ◌ as_i32 latest_message ◌-ℤ◌
poll_ready_example =
    poll_ready as_listed 30 none (pos 5) two_jobs polled_jobs.0 polled_jobs.1 as_listed-Keeps refl

-- The message of the first job.
abbrev pub first_message : Message
first_message = record {
  id = 1;
  created_at = 10;
  attempt_at = some 10;
  attempts = pos 5;
  retry_backoff = 1000000;
  channel_name = "foo";
  channel_args = "";
  commit_interval = none;
  after_message_id = some uuid_nil;
}

poll_serves_example :
    NonEmpty polled_jobs.1 × All (λ (p : PolledMessage). p.id ≢ none) polled_jobs.1
unfolding polled_jobs ◌+ℤ◌ as_i32 latest_message ◌-ℤ◌
poll_serves_example =
    poll_serves as_listed 30 none 4 two_jobs polled_jobs.0 polled_jobs.1 first_message
      as_listed-Keeps (λ c cs. (c, cs, refl)) (Memᴰ.tail (Memᴰ.head refl)) refl refl refl

poll_bounded_example : length (message_rows polled_jobs.1) ≤ 5
unfolding polled_jobs ◌+ℤ◌ as_i32 latest_message ◌-ℤ◌
poll_bounded_example =
    poll_bounded as_listed 30 none 5 two_jobs polled_jobs.0 polled_jobs.1
      (Reach-IsConsistent any_json two_jobs-Reach).distinct refl

-- Another poll that had selected the same message from an older snapshot.
abbrev polled_again : Database × List PolledMessage
unfolding polled_jobs claim
polled_again = or_start (claim 31 none (1 ∷ []) polled_jobs.0) (empty_queue 0, [])

claim_disjoint_example : All (λ p. All (λ q. ¬ SameMessage p q) polled_again.1) polled_jobs.1
unfolding polled_again ◌+ℤ◌ as_i32 latest_message ◌-ℤ◌
claim_disjoint_example =
    claim_disjoint 30 31 none none (1 ∷ []) (1 ∷ []) two_jobs polled_jobs.0 polled_again.0
      polled_jobs.1 polled_again.1 (Reach-IsConsistent any_json two_jobs-Reach).distinct
      (omega arith) refl refl

abbrev retried : Message
retried = record {
  id = 7;
  created_at = 0;
  attempt_at = some 0;
  attempts = pos 3;
  retry_backoff = 100;
  channel_name = "foo";
  channel_args = "";
  commit_interval = none;
  after_message_id = none;
}

claims_schedule_example :
    claims ((0 ∷ 100 ∷ []) ++ 300 ∷ []) retried
    ≡ ok (record retried { attempt_at = none; attempts = pos 0; retry_backoff = 800 })
claims_schedule_example =
    claims_schedule (0 ∷ 100 ∷ []) 300 3 retried refl (omega arith) (omega arith)

abbrev exhausted : Message
exhausted = record retried { attempt_at = none; attempts = pos 0; retry_backoff = 800 }

checkpoint_revives_example :
    (m₁ m₂ : Message) × (checkpoint_message 1000 (some (pos 0)) exhausted ≡ ok m₁)
    × (claims (1000 ∷ 2000 ∷ []) m₁ ≡ ok m₂)
    × (u : ℕ) × (m₂.attempt_at ≡ some u)
checkpoint_revives_example =
    checkpoint_revives 1000 (1000 ∷ 2000 ∷ []) exhausted refl refl (omega arith)

abbrev uncommitted : Message
uncommitted = record retried { attempt_at = some 60; commit_interval = some 50 }

kept_then_committed :
    commit_message (keep_message_alive 90 uncommitted) ≡ commit_message uncommitted
kept_then_committed = commit_message-keep_message_alive 90 60 50 uncommitted refl refl (omega arith)

clear_lem_example :
    let gone =
      λ (m : Message). any (str_eq m.channel_name) ("foo" ∷ []) && not (m.id == uuid_nil) in
    let left = filter (λ (m : Message). not (gone m)) two_jobs.messages in
    (clear ("foo" ∷ []) two_jobs
      ≡ ok (record two_jobs { messages = left; payloads = payloads_left gone two_jobs }))
    × IsConsistent left
clear_lem_example = clear_lem ("foo" ∷ []) two_jobs (Reach-IsConsistent any_json two_jobs-Reach)
