-- ===== src/Spawn.antt =====
-- src/spawn.rs: the builder of a job, and the calls that put jobs into the queue and take them out.
-- A setter returns the builder that it changed; durations count whole microseconds, which is what
-- an INTERVAL holds. The time of the transaction is the argument `now`.
pub mod Effect
pub mod Commit
pub mod Notify
pub mod Wake
pub mod Errors
pub mod Stale
pub mod Unordered
mod Examples
use sqlxmq.Prelude.{
  ℕ, String, as_i32, ◌≡◌, Bool, false, List, [], ◌∷◌, Option, none, some, ◌==◌, any, Fallible, ok,
  err, ◌>>=◌,
}
use sqlxmq.Store.{Message, Database}
use sqlxmq.Store.Insert.{insert_seeing, NewMessage, insert}
use sqlxmq.Store.Remove
use sqlxmq.Store.Schedule

pub record JobBuilder : Type 0 where
  pub id : ℕ
  pub delay : ℕ
  pub channel_name : String
  pub channel_args : String
  pub retries : ℕ
  pub retry_backoff : ℕ
  pub commit_interval : Option ℕ
  pub ordered : Bool
  pub name : String
  pub payload_json : Option String
  pub payload_bytes : Option (List ℕ)

abbrev pub second : ℕ
second = 1000000

unfoldable pub new_with_id : ℕ → String → JobBuilder
new_with_id id name = record {
  id = id;
  delay = 0;
  channel_name = "";
  channel_args = "";
  retries = 4;
  retry_backoff = second;
  commit_interval = none;
  ordered = false;
  name = name;
  payload_json = none;
  payload_bytes = none;
}

-- `new`, with the id that `Uuid::new_v4` drew.
unfoldable pub new : ℕ → String → JobBuilder
unfolding new_with_id
new drawn name = new_with_id drawn name

unfoldable pub set_proto : (JobBuilder → JobBuilder) → JobBuilder → JobBuilder
set_proto proto b = proto b

unfoldable pub set_channel_name : String → JobBuilder → JobBuilder
set_channel_name channel_name b = record b { channel_name = channel_name }

unfoldable pub set_channel_args : String → JobBuilder → JobBuilder
set_channel_args channel_args b = record b { channel_args = channel_args }

unfoldable pub set_retries : ℕ → JobBuilder → JobBuilder
set_retries retries b = record b { retries = retries }

unfoldable pub set_retry_backoff : ℕ → JobBuilder → JobBuilder
set_retry_backoff retry_backoff b = record b { retry_backoff = retry_backoff }

unfoldable pub set_commit_interval : Option ℕ → JobBuilder → JobBuilder
set_commit_interval commit_interval b = record b { commit_interval = commit_interval }

unfoldable pub set_ordered : Bool → JobBuilder → JobBuilder
set_ordered ordered b = record b { ordered = ordered }

unfoldable pub set_delay : ℕ → JobBuilder → JobBuilder
set_delay delay b = record b { delay = delay }

unfoldable pub set_raw_json : String → JobBuilder → JobBuilder
set_raw_json raw_json b = record b { payload_json = some raw_json }

unfoldable pub set_raw_bytes : List ℕ → JobBuilder → JobBuilder
set_raw_bytes raw_bytes b = record b { payload_bytes = some raw_bytes }

-- `set_json`, with what `serde_json::to_string` made of the value: none where it failed.
unfoldable pub set_json : Option String → JobBuilder → Option JobBuilder
set_json none b = none
set_json (some text) b = some (record b { payload_json = some text })

-- What `spawn` binds to the eleven parameters of its statement.
unfoldable pub bind_message : JobBuilder → NewMessage
bind_message b = record {
  id = b.id;
  delay = b.delay;
  retries = as_i32 b.retries;
  retry_backoff = b.retry_backoff;
  channel_name = b.channel_name;
  channel_args = b.channel_args;
  commit_interval = b.commit_interval;
  ordered = b.ordered;
  name = b.name;
  payload_json = b.payload_json;
  payload_bytes = b.payload_bytes;
}

unfoldable pub spawn :
    (String → Option String) → ℕ → JobBuilder → Database → Fallible (Database × ℕ)
unfolding bind_message insert
spawn to_jsonb now b db = do db' ← insert to_jsonb now (bind_message b ∷ []) db; ok (db', b.id)

-- `spawn` while other transactions commit: the snapshot of its statement saw the messages `seen`.
unfoldable pub spawn_seeing :
    (String → Option String) → ℕ → JobBuilder → List Message → Database → Fallible (Database × ℕ)
unfolding bind_message insert_seeing
spawn_seeing to_jsonb now b seen db = do
  db' ← insert_seeing to_jsonb now (bind_message b ∷ []) seen db
  ok (db', b.id)

unfoldable pub commit : List ℕ → Database → Fallible Database
unfolding Schedule.commit
commit job_ids db = Schedule.commit job_ids db

unfoldable pub clear : List String → Database → Fallible Database
unfolding Remove.clear
clear channel_names db = Remove.clear channel_names db

unfoldable pub clear_all : Database → Fallible Database
unfolding Remove.clear_all
clear_all db = Remove.clear_all db

unfoldable pub exists : ℕ → Database → Bool
exists id db = any (λ (m : Message). m.id == id) db.messages
