-- ===== src/Runner/TestOne/Outcome.antt =====
-- How a call of `test_one` can end.
use sqlxmq.Prelude.{
  ℕ, String, pos, ◌+◌, ◌≤◌, ◌≡◌, refl, sym, ap, ◌∙◌, inl, inr, false, ◌&&◌, List, [], ◌∷◌, map,
  Option, none, some, length, All, arith, SqlxError, ok, err, Fallible-cases, Option-cases,
  some_injective, not-none-some, subst,
}
use sqlxmq.Store.{Message, Payload, Database}
use sqlxmq.Store.Poll.{
  PolledMessage, poll, limit, select_messages, returned_rows, wait_row, is_ready, subscribes,
}
use sqlxmq.Store.Poll.Claim.{Distinct}
use sqlxmq.Store.Poll.Bound.{poll_bounded, length-message_rows}
use sqlxmq.Store.Poll.Concurrent.{claim_inversion}
use sqlxmq.Store.Poll.Select.{Channel, Keeps, IsReadyId, RowOf, poll_ready}
use sqlxmq.Store.Poll.Idle.{poll_idle}
use sqlxmq.Store.Reach.{Reach, empty_queue, Reach-IsConsistent}
use sqlxmq.Runner.{JobRunnerOptions, JobRunner, CurrentJob, start}
use sqlxmq.Runner.Poll.{direct}
use sqlxmq.Runner.Job.Complete.{Completes, ready-Completes}
use sqlxmq.Runner.TestOne.{
  Tested, failed, panicked, ran, ran_nothing, to_test_job, test_messages, test_one,
}

returned_one :
    (now : ℕ) (names : Option (List String)) (ps : List Payload) (ms claimed : List Message)
    → length claimed ≤ 1
    → (p : PolledMessage) × (returned_rows now names ps ms claimed ≡ p ∷ [])
unfolding returned_rows
returned_one now names ps ms [] h = (_, refl)
returned_one now names ps ms (m ∷ []) h = (_, refl)
returned_one now names ps ms (m ∷ n ∷ claimed) h = absurd (omega arith)

-- A poll for one message returns one row.
poll_one :
    (shuffle : List Channel → List Channel) (now : ℕ) (names : Option (List String))
    (db db' : Database) (rows : List PolledMessage)
    → Distinct db.messages
    → poll shuffle now names (pos 1) db ≡ ok (db', rows)
    → (p : PolledMessage) × (rows ≡ p ∷ [])
unfolding poll limit
poll_one shuffle now names db db' rows d e =
    let ids = map (λ (m : Message). m.id) (select_messages shuffle names 1 now db.messages) in
    let (claimed, _, p) = claim_inversion now names ids db db' rows e in
    let few = poll_bounded shuffle now names 1 db db' rows d e in
    let (row, q) = returned_one now names db.payloads db'.messages claimed (
      omega (arith, rw p at few, length-message_rows now names db.payloads db'.messages claimed)) in
    (row, p ∙ q)

to_test_job-id :
    (m : PolledMessage) (job : CurrentJob) → to_test_job m ≡ some job → m.id ≡ some job.id
unfolding to_test_job
to_test_job-id m job e = ground arith

-- What a call may end with, where it found the tables `db`: the error of the poll, or a job that
-- runs by itself, was ready and can be completed; or no job.
abbrev pub EndsWell : ℕ → JobRunnerOptions → Database → Database × Tested → Type 0
EndsWell now o db (db', failed x) = db' ≡ db
EndsWell now o db (db', panicked) = ⊥
EndsWell now o db (db', ran r job) =
    (r.running_jobs ≡ 1) × IsReadyId now o.channel_names db.messages job.id × Completes job db'
EndsWell now o db (db', ran_nothing) = Unit {0}

test_messages-none :
    (r : JobRunner) (row : PolledMessage)
    → to_test_job row ≡ none
    → test_messages r (row ∷ []) ≡ ran_nothing
unfolding test_messages
test_messages-none r row e = rw (e, test_messages) refl

test_messages-some :
    (r : JobRunner) (row : PolledMessage) (job : CurrentJob)
    → to_test_job row ≡ some job
    → test_messages r (row ∷ []) ≡ ran (record r { running_jobs = r.running_jobs + 1 }) job
unfolding test_messages
test_messages-some r row job e = rw (e, test_messages) refl

RowOf-test_job :
    (P : ℕ → Type 0) (row : PolledMessage) (job : CurrentJob)
    → RowOf P row
    → to_test_job row ≡ some job
    → P job.id
RowOf-test_job P row job (inl e) q = absurd (not-none-some (sym e ∙ to_test_job-id row job q))
RowOf-test_job P row job (inr (i, e, h)) q =
    subst P (some_injective (sym e ∙ to_test_job-id row job q)) h

test_messages-EndsWell :
    (now : ℕ) (o : JobRunnerOptions) (db db' : Database) (row : PolledMessage)
    → RowOf (IsReadyId now o.channel_names db.messages) row
    → ((job : CurrentJob) → IsReadyId now o.channel_names db.messages job.id → Completes job db')
    → EndsWell now o db (db', test_messages (start o) (row ∷ []))
unfolding start
test_messages-EndsWell now o db db' row r done = elim (Option-cases (to_test_job row)) [
  | inl e ↦ subst (λ x. EndsWell now o db (db', x)) (sym (test_messages-none (start o) row e)) tt
  | inr (job, e) ↦
      let ready = RowOf-test_job (IsReadyId now o.channel_names db.messages) row job r e in
      subst (λ x. EndsWell now o db (db', x)) (sym (test_messages-some (start o) row job e))
        (refl, ready, done job ready)
]

module _ (shuffle : List Channel → List Channel) (now : ℕ) (o : JobRunnerOptions)
    (db : Database) where
  test_one-err :
      (x : SqlxError)
      → poll shuffle now o.channel_names (pos 1) db ≡ err x
      → test_one (direct shuffle now) o db ≡ (db, failed x)
  unfolding test_one
  test_one-err x e = rw (e, test_one) refl

  test_one-ok :
      (db' : Database) (rows : List PolledMessage)
      → poll shuffle now o.channel_names (pos 1) db ≡ ok (db', rows)
      → test_one (direct shuffle now) o db ≡ (db', test_messages (start o) rows)
  unfolding test_one
  test_one-ok db' rows e = rw (e, test_one) refl

-- In every state of the queue, `test_one` never fails its assertion that the poll returned one row.
-- Where the poll fails, the tables stay as they were; where a job is run, it is the only one of its
-- runner, it was ready and in a channel that was asked for, and it can be completed.
pub test_one_lem :
    (to_jsonb : String → Option String) (shuffle : List Channel → List Channel) (begin now : ℕ)
    (o : JobRunnerOptions) (db : Database)
    → Reach to_jsonb (empty_queue begin) db
    → Keeps shuffle
    → EndsWell now o db (test_one (direct shuffle now) o db)
test_one_lem to_jsonb shuffle begin now o db r keeps =
    let names = o.channel_names in
    elim (Fallible-cases (poll shuffle now names (pos 1) db)) [
      | inl (x, e) ↦ subst (EndsWell now o db) (sym (test_one-err shuffle now o db x e)) refl
      | inr ((db', rows), e) ↦
          let c = Reach-IsConsistent to_jsonb r in
          let (row, q) = poll_one shuffle now names db db' rows c.distinct e in
          let ready = poll_ready shuffle now names (pos 1) db db' rows keeps e in
          subst (EndsWell now o db)
            (sym (
              test_one-ok shuffle now o db db' rows e
              ∙ ap (λ rs. (db', test_messages (start o) rs)) q))
            (test_messages-EndsWell now o db db' row (rw q at ready).0 λ job h.
              ready-Completes to_jsonb shuffle begin now names (pos 1) db db' rows job r e h)
    ]

-- Where no message that the options ask for is ready, `test_one` returns without an error and
-- without a job, and the tables stay as they were: the row that tells the time to wait satisfies its
-- assertion.
pub test_one_idle :
    (shuffle : List Channel → List Channel) (now : ℕ) (o : JobRunnerOptions) (db : Database)
    → Keeps shuffle
    → All (λ m. (is_ready now m && subscribes o.channel_names m) ≡ false) db.messages
    → test_one (direct shuffle now) o db ≡ (db, ran_nothing)
unfolding wait_row to_test_job
test_one_idle shuffle now o db keeps h =
    let row = wait_row now o.channel_names db.messages in
    test_one-ok shuffle now o db db (row ∷ []) (poll_idle shuffle now o.channel_names 1 db keeps h)
    ∙ ap (λ x. (db, x)) (test_messages-none (start o) row refl)
