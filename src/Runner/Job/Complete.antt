-- ===== src/Runner/Job/Complete.antt =====
-- Completing a job that a poll handed out.
use sqlxmq.Prelude.{
  ℕ, String, ℤ, ◌≡◌, ◌≢◌, refl, sym, ap, ◌∙◌, subst, inl, inr, Bool, true, false, not, List, [],
  ◌∷◌, map, Option, none, some, elem, filter, All, All-map, Memᴰ, arith, ok, Fallible,
  some_injective, not-none-some, >>=-eq-ok, Option-cases, ◌+◌,
}
use sqlxmq.Store.{Message, Payload, Database, uuid_nil, uuid_exists}
use sqlxmq.Store.Insert.{notify_channels}
use sqlxmq.Store.Remove.{delete_where, head_channels}
use sqlxmq.Store.Remove
use sqlxmq.Store.Poll.{PolledMessage, poll, claim, is_ready, select_messages, limit}
use sqlxmq.Store.Poll.Select.{Channel, Keeps, IsReadyId, RowOf, poll_ready}
use sqlxmq.Store.Poll.Concurrent.{claim_inversion}
use sqlxmq.Store.Consistent.{IsConsistent, Distinct-eq}
use sqlxmq.Store.Consistent.Remove.{delete_where_head, kept-IsConsistent, kept-without}
use sqlxmq.Store.Consistent.Update.{Updated-old, Updated-IsConsistent, Claims-Updated}
use sqlxmq.Store.Reach.{Reach, empty_queue, Reach-IsConsistent}
use sqlxmq.Runner.{CurrentJob, JobRunner}
use sqlxmq.Runner.Poll.{to_job, dispatch_all}
use sqlxmq.Runner.Poll.Dispatch.{to_job-id}
use sqlxmq.Runner.Job.{complete, stop_keep_alive}
use sqlxmq.Spawn.{exists}

-- The message of this id, if there is one, waits for no other.
abbrev pub IsHead : ℕ → Database → Type 0
IsHead id db =
    (m : Message) → Memᴰ m db.messages → m.id ≡ id → uuid_exists m.after_message_id ≡ false

-- The job is completed: its message is gone, and its task no longer keeps it alive.
abbrev pub Completes : CurrentJob → Database → Type 0
Completes job db =
    (db' : Database) × ((complete job db).0 ≡ ok db')
    × ((complete job db).1.keep_alive ≡ none)
    × (exists job.id db' ≡ false)
    × IsConsistent db'.messages

pub delete_of :
    (ids : List ℕ) (db : Database) (ms : List Message)
    → delete_where (λ m. elem m.id ids) db.messages ≡ ok ms
    → (db' : Database) × (Remove.delete ids db ≡ ok db') × (db'.messages ≡ ms)
unfolding Remove.delete
delete_of ids db ms e = (
  record {
    messages = ms;
    payloads = filter (λ (p : Payload). not (elem p.id ids)) db.payloads;
    notified = notify_channels (head_channels ids db.messages) db.notified;
  },
  rw e,
  refl,
)

pub complete-ok :
    (job : CurrentJob) (db db' : Database)
    → Remove.delete (job.id ∷ []) db ≡ ok db'
    → complete job db ≡ (ok db', stop_keep_alive job)
unfolding complete
complete-ok job db db' e = rw e

-- A job whose message waits for no other is completed, whatever message comes after it.
pub complete_head :
    (job : CurrentJob) (db : Database)
    → IsConsistent db.messages
    → job.id ≢ uuid_nil
    → IsHead job.id db
    → Completes job db
unfolding exists stop_keep_alive
complete_head job db c nn head =
    let e = delete_where_head job.id db.messages c nn head in
    let (db', p, q) = delete_of (job.id ∷ []) db _ e in
    (
      db',
      ap (λ (r : Fallible Database × CurrentJob). r.0) (complete-ok job db db' p),
      ap (λ (r : Fallible Database × CurrentJob). r.1.keep_alive) (complete-ok job db db' p),
      rw q (kept-without job.id db.messages c),
      subst IsConsistent (sym q) (kept-IsConsistent job.id db.messages c nn head),
    )

pub ready-IsHead :
    (now : ℕ) (names : Option (List String)) (ids : List ℕ) (i : ℕ) (db db' : Database)
    (rows : List PolledMessage)
    → IsConsistent db.messages
    → claim now names ids db ≡ ok (db', rows)
    → IsReadyId now names db.messages i
    → (i ≢ uuid_nil) × IsHead i db'
ready-IsHead now names ids i db db' rows c e (m, km, p, r, _) =
    let u = Claims-Updated (claim_inversion now names ids db db' rows e).1 in
    (
      (λ z. is_ready-ne_nil now m r (p ∙ z)),
      (λ n kn q.
          let (b, kb, v) = Updated-old n u kn in
          let same = Distinct-eq db.messages m b c.distinct km kb (p ∙ sym q ∙ v.same_id) in
          subst (λ a. uuid_exists a ≡ false)
            (ap (λ (x : Message). x.after_message_id) same ∙ sym v.same_after)
            (is_ready-head now m r)),
    )
  where
    is_ready-ne_nil : (now : ℕ) (m : Message) → is_ready now m ≡ true → m.id ≢ uuid_nil
    is_ready-ne_nil now m h z = ground arith

    is_ready-head :
        (now : ℕ) (m : Message) → is_ready now m ≡ true → uuid_exists m.after_message_id ≡ false
    is_ready-head now m h = ground arith

-- A job whose message was ready when a poll came can be completed after the poll.
pub ready-Completes :
    (to_jsonb : String → Option String) (shuffle : List Channel → List Channel) (start now : ℕ)
    (names : Option (List String)) (batch_size : ℤ) (db db' : Database) (rows : List PolledMessage)
    (job : CurrentJob)
    → Reach to_jsonb (empty_queue start) db
    → poll shuffle now names batch_size db ≡ ok (db', rows)
    → IsReadyId now names db.messages job.id
    → Completes job db'
unfolding poll
ready-Completes to_jsonb shuffle start now names batch_size db db' rows job r e ready =
    let c = Reach-IsConsistent to_jsonb r in
    let (batch, e₁, e₂) = >>=-eq-ok (limit batch_size) _ e in
    let ids = map (λ (m : Message). m.id) (select_messages shuffle names batch now db.messages) in
    let c' =
      Updated-IsConsistent (Claims-Updated (claim_inversion now names ids db db' rows e₂).1) c in
    let (nn, head) = ready-IsHead now names ids job.id db db' rows c e₂ ready in
    complete_head job db' c' nn head

RowOf-job :
    (P : ℕ → Type 0) (keep : Bool) (m : PolledMessage) (job : CurrentJob)
    → RowOf P m
    → to_job keep m ≡ some job
    → P job.id
RowOf-job P keep m job (inl e) q = absurd (not-none-some (sym e ∙ to_job-id keep m job q))
RowOf-job P keep m job (inr (i, e, h)) q =
    subst P (some_injective (sym e ∙ to_job-id keep m job q)) h

pub dispatched-All :
    (P : ℕ → Type 0) (r : JobRunner) (rows : List PolledMessage)
    → All (RowOf P) rows
    → All (λ (job : CurrentJob). P job.id) (dispatch_all r rows).1
unfolding dispatch_all
dispatched-All P r [] h = tt
dispatched-All P r (m ∷ rows) h = elim (Option-cases (to_job r.options.keep_alive m)) [
  | inl e ↦ rw (e, dispatch_all) (dispatched-All P r rows h.1)
  | inr (job, e) ↦
      rw (e, dispatch_all)
        (
          RowOf-job P r.options.keep_alive m job h.0 e,
          dispatched-All P (record r { running_jobs = r.running_jobs + 1 }) rows h.1,
        )
]

-- In whatever state of the queue a poll happens, each job that the runner dispatches from its rows
-- can be completed in the state that the poll leaves: completing meets no constraint of the
-- tables, the message is gone, the task that kept the job alive is stopped, and the table of
-- messages stays consistent.
pub poll_complete :
    (to_jsonb : String → Option String) (shuffle : List Channel → List Channel) (start now : ℕ)
    (names : Option (List String)) (batch_size : ℤ) (db db' : Database) (rows : List PolledMessage)
    (runner : JobRunner)
    → Reach to_jsonb (empty_queue start) db
    → Keeps shuffle
    → poll shuffle now names batch_size db ≡ ok (db', rows)
    → All (λ job. Completes job db') (dispatch_all runner rows).1
poll_complete to_jsonb shuffle start now names batch_size db db' rows runner r keeps e =
    All-map (dispatch_all runner rows).1
      (λ job h. ready-Completes to_jsonb shuffle start now names batch_size db db' rows job r e h)
      (dispatched-All (IsReadyId now names db.messages) runner rows
        (poll_ready shuffle now names batch_size db db' rows keeps e))
