-- ===== src/Runner/Job.antt =====
-- `Checkpoint` and the methods of `CurrentJob` in src/runner.rs. A call on the pool is one
-- transaction; one with a transaction works on that transaction's tables, and `tx_commit` is what
-- the database answers to its COMMIT. A method returns its result and the job as it left it.
pub mod Complete
use sqlxmq.Prelude.{
  ℕ, String, as_i32, ◌%◌, List, [], ◌∷◌, Option, none, some, Fallible, ok, err, ◌>>=◌,
}
use sqlxmq.Store.{Database}
use sqlxmq.Store.Remove
use sqlxmq.Store.Schedule
use sqlxmq.Runner.{CurrentJob}

pub record Checkpoint : Type 0 where
  pub duration : ℕ
  pub extra_retries : ℕ
  pub payload_json : Option String
  pub payload_bytes : Option (List ℕ)

unfoldable pub new_keep_alive : ℕ → Checkpoint
new_keep_alive duration = record {
  duration = duration;
  extra_retries = 0;
  payload_json = none;
  payload_bytes = none;
}

-- `Checkpoint::new`, the default of every field.
unfoldable pub new_checkpoint : Checkpoint
unfolding new_keep_alive
new_checkpoint = new_keep_alive 0

unfoldable pub set_extra_retries : ℕ → Checkpoint → Checkpoint
set_extra_retries extra_retries c = record c { extra_retries = extra_retries }

unfoldable pub set_raw_json : String → Checkpoint → Checkpoint
set_raw_json raw_json c = record c { payload_json = some raw_json }

unfoldable pub set_raw_bytes : List ℕ → Checkpoint → Checkpoint
set_raw_bytes raw_bytes c = record c { payload_bytes = some raw_bytes }

-- With what `serde_json::to_string` made of the value: none where it failed.
unfoldable pub set_json : Option String → Checkpoint → Option Checkpoint
set_json none c = none
set_json (some text) c = some (record c { payload_json = some text })

-- `Checkpoint::execute`
unfoldable pub execute :
    (String → Option String) → ℕ → Checkpoint → ℕ → Database → Fallible Database
unfolding Schedule.checkpoint
execute to_jsonb now c job_id db =
    Schedule.checkpoint to_jsonb now job_id c.duration c.payload_json c.payload_bytes
      (some (as_i32 c.extra_retries)) db

unfoldable pub delete : CurrentJob → Database → Fallible Database
unfolding Remove.delete
delete job db = Remove.delete (job.id ∷ []) db

-- The task stops with its handle.
unfoldable pub stop_keep_alive : CurrentJob → CurrentJob
stop_keep_alive job = record job { keep_alive = none }

abbrev after {ℓ} : {A : Type ℓ} → Fallible A → CurrentJob → CurrentJob → CurrentJob
after (ok _) done same = done
after (err _) done same = same

unfoldable pub complete : CurrentJob → Database → Fallible Database × CurrentJob
unfolding delete stop_keep_alive
complete job db = let result = delete job db in (result, after result (stop_keep_alive job) job)

unfoldable pub complete_with_transaction :
    (Database → Fallible Database) → CurrentJob → Database → Fallible Database × CurrentJob
unfolding delete stop_keep_alive
complete_with_transaction tx_commit job tx =
    let result = delete job tx >>= tx_commit in (result, after result (stop_keep_alive job) job)

unfoldable pub checkpoint :
    (String → Option String) → ℕ → Checkpoint → CurrentJob → Database → Fallible Database
unfolding execute
checkpoint to_jsonb now c job db = execute to_jsonb now c job.id db

unfoldable pub checkpoint_with_transaction :
    (String → Option String)
    → (Database → Fallible Database)
    → ℕ
    → Checkpoint
    → CurrentJob
    → Database
    → Fallible Database
unfolding execute
checkpoint_with_transaction to_jsonb tx_commit now c job tx =
    execute to_jsonb now c job.id tx >>= tx_commit

unfoldable pub keep_alive : ℕ → ℕ → CurrentJob → Database → Fallible Database
unfolding Schedule.keep_alive
keep_alive now duration job db = Schedule.keep_alive now (job.id ∷ []) duration db

-- `json`, with `serde_json::from_str` as an argument: none where it failed.
unfoldable pub json {ℓ} : {T : Type ℓ} → (String → Option T) → CurrentJob → Option (Option T)
json from_str job = elim job.payload_json [
  | none ↦ some none
  | some text ↦ elim (from_str text) [ none ↦ none | some value ↦ some (some value) ]
]
