-- ===== src/Scenarios/Saving.antt =====
-- The tasks of the test `it_can_checkpoint_jobs`, and the rounds that start them.
use sqlxmq.Prelude.{
  ℕ, suc, String, ◌+ℤ◌, as_i32, ◌+◌, ◌≤◌, ◌<◌, ◌≡◌, ◌≢◌, refl, Bool, true, false, List, [], ◌∷◌,
  Option, none, some, ◌==◌, arith, ok,
}
use sqlxmq.Store.{Message, Database, uuid_nil, update_where}
use sqlxmq.Store.Insert.{cast_json}
use sqlxmq.Store.Schedule.{checkpoint_message, checkpoint_payload}
use sqlxmq.Store.Schedule
use sqlxmq.Runner.{CurrentJob}
use sqlxmq.Runner.Job.{json, complete, new_checkpoint, set_json, execute}
use sqlxmq.Runner.Job
use sqlxmq.Scenarios.{Closure, run_task, checkpoints, saves_state, completes}
use sqlxmq.Scenarios.Single.{alone}
use sqlxmq.Scenarios.Rounds.{at_rest, with_one, job_of}
use sqlxmq.Scenarios.Attempts.{waiting}
use sqlxmq.Scenarios.Spawned.{payload_of}
use sqlxmq.Scenarios.Tasks.{emptied, complete-alone, nil-ne, self, run_task-dropped}

-- What serde_json writes of the states, and the database keeps of them.
pub record IsState (to_jsonb : String → Option String) (from_str : String → Option Bool)
    (to_string : Bool → Option String) (before after : String) : Type 0 where
  pub spawned : (text : String) × (to_string false ≡ some text) × (to_jsonb text ≡ some before)
  pub reads_before : from_str before ≡ some false
  pub written : (text : String) × (to_string true ≡ some text) × (to_jsonb text ≡ some after)
  pub reads_after : from_str after ≡ some true

checkpoint_message-waiting :
    (m : Message) (n due b now : ℕ)
    → n < 2147483647
    → now ≤ due
    → checkpoint_message (now + 0) (some (as_i32 0)) (waiting m (suc n) due b)
      ≡ ok (waiting m (suc n) due b)
unfolding checkpoint_message as_i32 ◌+ℤ◌
checkpoint_message-waiting m n due b now small h = ground arith

module _ (to_jsonb : String → Option String) (from_str : String → Option Bool)
    (to_string : Bool → Option String) (before after : String)
    (state : IsState to_jsonb from_str to_string before after) (z m : Message)
    (is_nil : z.id ≡ uuid_nil) (named : m.id ≢ uuid_nil) (sent : List String) where
  update-alone :
      (n due b now : ℕ)
      → n < 2147483647
      → now ≤ due
      → update_where
          (λ k. k.id == m.id)
          (checkpoint_message (now + 0) (some (as_i32 0)))
          (waiting m (suc n) due b ∷ z ∷ [])
        ≡ ok (waiting m (suc n) due b ∷ z ∷ [])
  unfolding update_where
  update-alone n due b now small h =
      rw (self m.id, nil-ne m.id z is_nil named, checkpoint_message-waiting m n due b now small h)
        refl

  saves-alone :
      (job : CurrentJob) (n due b now : ℕ)
      → job.id ≡ m.id
      → n < 2147483647
      → now ≤ due
      → saves_state to_jsonb from_str to_string now job
          (alone z (waiting m (suc n) due b) (payload_of m.id (some before)) sent)
        ≡ some (alone z (waiting m (suc n) due b) (payload_of m.id (some after)) sent)
  unfolding saves_state Schedule.checkpoint checkpoint_payload cast_json Job.set_json new_checkpoint
      Job.checkpoint execute
  saves-alone job n due b now e small h =
      let (text, w, j) = state.written in
      rw (w, saves_state)
        (rw (e, Schedule.checkpoint)
          (rw (update-alone n due b now small h) (rw (self m.id) (rw j refl))))

  abbrev pub closure : Closure
  closure = checkpoints to_jsonb from_str to_string

  json-of :
      (text : String) (value : Bool) (row : Message)
      → from_str text ≡ some value
      → json from_str (job_of row (payload_of m.id (some text))) ≡ some (some value)
  unfolding json
  json-of text value row e = rw e refl

  saves :
      (job : CurrentJob) (n due b now : ℕ)
      → job.id ≡ m.id
      → json from_str job ≡ some (some false)
      → n < 2147483647
      → now ≤ due
      → closure now job (alone z (waiting m (suc n) due b) (payload_of m.id (some before)) sent)
        ≡ (alone z (waiting m (suc n) due b) (payload_of m.id (some after)) sent, none)
  unfolding checkpoints
  saves job n due b now e read small h =
      rw (read, checkpoints) (rw (saves-alone job n due b now e small h) refl)

  done :
      (now : ℕ) (job : CurrentJob) (db db' : Database)
      → json from_str job ≡ some (some true)
      → (complete job db).0 ≡ ok db'
      → closure now job db ≡ (db', none)
  unfolding checkpoints
  done now job db db' read e = rw (read, checkpoints) (rw (e, completes) refl)

  pub run_task-saves :
      (n due b now counter : ℕ) (permit : Bool)
      → n < 2147483647
      → now ≤ due
      → let row = waiting m (suc n) due b in
        let p = payload_of m.id (some before) in
        run_task closure now
          (job_of row p)
          (record (at_rest (alone z row p sent) permit counter []) { runner = with_one permit })
        ≡ at_rest (alone z row (payload_of m.id (some after)) sent) permit (counter + 1) []
  run_task-saves n due b now counter permit small h =
      let row = waiting m (suc n) due b in
      run_task-dropped closure now (job_of row (payload_of m.id (some before))) _ _ permit counter (
        saves (job_of row (payload_of m.id (some before))) n due b now refl
          (json-of before false row state.reads_before) small h)

  pub run_task-completes :
      (n due b now counter : ℕ) (permit : Bool)
      → m.after_message_id ≡ none
      → z.after_message_id ≡ none
      → let row = waiting m n due b in
        let p = payload_of m.id (some after) in
        run_task closure now
          (job_of row p)
          (record (at_rest (alone z row p sent) permit counter []) { runner = with_one permit })
        ≡ at_rest (emptied z sent) permit (counter + 1) []
  run_task-completes n due b now counter permit free first =
      let row = waiting m n due b in
      let p = payload_of m.id (some after) in
      run_task-dropped closure now (job_of row p) _ _ permit counter (
        done now (job_of row p) _ _ (json-of after true row state.reads_after)
          (complete-alone z row p is_nil first named free refl (job_of row p) sent refl))
