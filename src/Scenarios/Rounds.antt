-- ===== src/Scenarios/Rounds.antt =====
-- A round of a test's runner where the tables hold one message beside the nil message.
use sqlxmq.Prelude.{
  ℕ, String, pos, as_i32, ◌/◌, ◌≡◌, ◌≢◌, refl, ◌∙◌, Bool, true, false, ◌&&◌, List, [], ◌∷◌, none,
  some, ◌==◌, ==_iff, ok, All, find?,
}
use sqlxmq.Store.{Message, Payload, Database, uuid_nil, uuid_exists}
use sqlxmq.Store.Poll.{polled_row, of_microseconds, claim_message, is_ready, subscribes}
use sqlxmq.Store.Poll.Select.{Channel, Keeps}
use sqlxmq.Runner.{JobRunner, CurrentJob, keeps_alive, new_options}
use sqlxmq.Runner.Poll.{
  Polled, direct, to_duration, to_job, dispatch_all, dispatch_messages, delete_and_dispatch,
  ids_to_delete, poll_and_dispatch,
}
use sqlxmq.Runner.Poll.Wait.{poll_and_dispatch_idle}
use sqlxmq.Runner.Poll.Failure.{poll_and_dispatch-ok}
use sqlxmq.Runner.Loop.{round, after_poll, batch_size}
use sqlxmq.Scenarios.{Closure, TestRun, run_round, run_task, run_tasks}
use sqlxmq.Scenarios.Single.{alone, IsDue, poll_alone}

-- The job of a row that was claimed.
abbrev pub job_of : Message → Payload → CurrentJob
job_of m p = record {
  id = m.id;
  name = p.name;
  payload_json = p.payload_json;
  payload_bytes = p.payload_bytes;
  keep_alive = some (keeps_alive (to_duration (of_microseconds (m.retry_backoff / 2))));
}

-- With nothing running, and a permit or none.
abbrev pub resting : Bool → JobRunner
resting permit = record { options = new_options; running_jobs = 0; permit = permit }

abbrev pub with_one : Bool → JobRunner
with_one permit = record (resting permit) { running_jobs = 1 }

found :
    (m : Message) (p : Payload)
    → p.id ≡ m.id
    → find? (λ (q : Payload). q.id == m.id) (p ∷ []) ≡ some p
found m p e = rw ((==_iff p.id m.id).1 e) refl

to_job-polled_row :
    (m : Message) (p : Payload)
    → p.id ≡ m.id
    → m.commit_interval ≡ none
    → to_job true (polled_row (p ∷ []) m) ≡ some (job_of m p)
unfolding to_job polled_row
to_job-polled_row m p e c = rw (c, found m p e) (rw (found m p e, polled_row) refl)

nothing_to_delete :
    (m : Message) (p : Payload)
    → m.commit_interval ≡ none
    → ids_to_delete (polled_row (p ∷ []) m ∷ []) ≡ []
unfolding ids_to_delete polled_row
nothing_to_delete m p c = rw c refl

room : (permit : Bool) → batch_size new_options 0 ≡ pos 32
unfolding batch_size as_i32 new_options
room permit = refl

-- A test between two rounds.
abbrev pub at_rest : Database → Bool → ℕ → List CurrentJob → TestRun
at_rest db permit counter received = record {
  database = db;
  runner = resting permit;
  counter = counter;
  received = received;
}

module _ (shuffle : List Channel → List Channel) (keeps : Keeps shuffle) (f : Closure) (now : ℕ)
    (permit : Bool) (counter : ℕ) (received : List CurrentJob) where
  run_round-polled :
      (db : Database) (q : Polled)
      → poll_and_dispatch (direct shuffle now) (resting permit) (pos 32) db ≡ q
      → run_round shuffle f now (at_rest db permit counter received)
        ≡ run_tasks f now q.dispatched (record {
          database = q.database;
          runner = q.runner;
          counter = counter;
          received = received;
        })
  unfolding run_round round after_poll new_options
  run_round-polled db q e = rw (room permit, run_round, round) (rw e refl)

  -- Where nothing is ready, a round does nothing.
  pub run_round-idle :
      (db : Database)
      → All (λ m. (is_ready now m && subscribes none m) ≡ false) db.messages
      → run_round shuffle f now (at_rest db permit counter received)
        ≡ at_rest db permit counter received
  unfolding run_tasks
  run_round-idle db h =
      let (w, e, _, _) =
        poll_and_dispatch_idle shuffle now (resting permit) 32 db keeps (unfold new_options in h) in
      run_round-polled db _ e

  -- Where the one message is due, its job is run.
  pub run_round-alone :
      (z m m' : Message) (p : Payload) (sent : List String)
      → ((c : Channel) → shuffle (c ∷ []) ≡ c ∷ [])
      → z.id ≡ uuid_nil
      → m.id ≢ uuid_nil
      → uuid_exists m.after_message_id ≡ false
      → IsDue now m
      → claim_message now m ≡ ok m'
      → p.id ≡ m'.id
      → m'.commit_interval ≡ none
      → run_round shuffle f now (at_rest (alone z m p sent) permit counter received)
        ≡ run_task f now (job_of m' p) (record {
          database = alone z m' p sent;
          runner = with_one permit;
          counter = counter;
          received = received;
        })
  unfolding run_tasks delete_and_dispatch dispatch_messages dispatch_all new_options polled_row
  run_round-alone z m m' p sent only is_nil n a due e q c =
      let polled = poll_alone shuffle only z is_nil now m m' p sent n a due e in
      run_round-polled (alone z m p sent) _ (
        poll_and_dispatch-ok (direct shuffle now) (resting permit) (pos 32) (alone z m p sent) _ _
          polled)
      ∙ rw (nothing_to_delete m' p c) (rw (to_job-polled_row m' p q c) refl)
