-- ===== src/Scenarios/Tasks.antt =====
-- The tasks of tests whose jobs are completed or save their state, beside the nil message.
use sqlxmq.Prelude.{
  ℕ, String, ◌+◌, ◌≡◌, ◌≢◌, refl, Bool, true, false, List, [], ◌∷◌, none, ◌==◌, ==_iff, sql_eq,
  any-false, ◌&&◌, elem, arith, ok,
}
use sqlxmq.Store.{Message, Payload, Database, uuid_nil, has_dangling}
use sqlxmq.Store.Remove
use sqlxmq.Store.Remove.{delete_where, relink, head_channels}
use sqlxmq.Store.Insert.{notify_channels}
use sqlxmq.Runner.{CurrentJob, drop_job, new_options}
use sqlxmq.Runner.Job.{complete}
use sqlxmq.Scenarios.{Closure, run_task}
use sqlxmq.Scenarios.Single.{alone}
use sqlxmq.Scenarios.Rounds.{at_rest, with_one}

-- The tables with the nil message alone.
abbrev pub emptied : Message → List String → Database
emptied z sent = record { messages = z ∷ []; payloads = []; notified = sent }

-- A job that its task does not send away is dropped.
pub run_task-dropped :
    (f : Closure) (now : ℕ) (job : CurrentJob) (db db' : Database) (permit : Bool) (counter : ℕ)
    → f now job db ≡ (db', none)
    → run_task f now job (record (at_rest db permit counter []) { runner = with_one permit })
      ≡ at_rest db' permit (counter + 1) []
unfolding run_task drop_job new_options
run_task-dropped f now job db db' permit counter e = rw (e, run_task) (rw e refl)

id-ne_nil : (i : ℕ) (z : Message) → z.id ≡ uuid_nil → i ≢ uuid_nil → (i == z.id) ≡ false
id-ne_nil i z e h = rw e (ground (arith, ==_iff i uuid_nil))

pub nil-ne : (i : ℕ) (z : Message) → z.id ≡ uuid_nil → i ≢ uuid_nil → (z.id == i) ≡ false
nil-ne i z e h = rw e (ground (arith, ==_iff uuid_nil i))

pub self : (i : ℕ) → (i == i) ≡ true
self i = ground (arith, ==_iff i i)

relink_free :
    (gone : Message → Bool) (ms : List Message) (z : Message)
    → z.after_message_id ≡ none
    → relink gone ms z ≡ z
unfolding relink
relink_free gone ms z e = rw (
    any-false (λ (d : Message). gone d && sql_eq z.after_message_id d.id) ms
      (λ d k. never (gone d) (sql_eq z.after_message_id d.id) (rw e refl)))
  where
    never : (a b : Bool) → b ≡ false → (a && b) ≡ false
    never a b h = ground arith

undangling : (z : Message) → z.after_message_id ≡ none → has_dangling (z ∷ []) ≡ false
undangling z e = rw e refl

module _ (z m : Message) (p : Payload) (is_nil : z.id ≡ uuid_nil)
    (first : z.after_message_id ≡ none) (named : m.id ≢ uuid_nil) (free : m.after_message_id ≡ none)
    (owned : p.id ≡ m.id) where
  delete_where-alone : delete_where (λ n. elem n.id (m.id ∷ [])) (m ∷ z ∷ []) ≡ ok (z ∷ [])
  unfolding delete_where relink
  delete_where-alone =
      rw (self m.id, id-ne_nil m.id z is_nil named)
        (rw (relink_free _ _ z first) (rw (undangling z first) refl))

  delete-alone :
      (sent : List String) → Remove.delete (m.id ∷ []) (alone z m p sent) ≡ ok (emptied z sent)
  unfolding Remove.delete head_channels notify_channels
  delete-alone sent =
      rw delete_where-alone (rw (owned, self m.id, free) (rw (id-ne_nil m.id z is_nil named) refl))

  pub complete-alone :
      (job : CurrentJob) (sent : List String)
      → job.id ≡ m.id
      → (complete job (alone z m p sent)).0 ≡ ok (emptied z sent)
  unfolding complete
  complete-alone job sent e = rw e (rw (delete-alone sent) refl)
