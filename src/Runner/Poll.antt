-- ===== src/Runner/Poll.antt =====
-- `to_duration` and `poll_and_dispatch` of src/runner.rs. The statements that a connection runs are
-- an interface: any of them may fail, and the database's own answer is one of its values.
pub mod Duration
pub mod Dispatch
pub mod Wait
pub mod Failure
pub mod Delivery
pub mod Discard
pub mod Outcome
mod Examples
use sqlxmq.Prelude.{
  ℕ, String, ℤ, pos, negsuc, pos_part, ltb_ℤ, ◌+◌, ◌*◌, Bool, true, false, ◌||◌, List, [], ◌∷◌,
  Option, none, some, if◌then◌else◌, length, min, Fallible, ok, err,
}
use sqlxmq.Store.{Database}
use sqlxmq.Store.Poll.{PgInterval, PolledMessage, poll}
use sqlxmq.Store.Remove.{delete}
use sqlxmq.Runner.{JobRunner, CurrentJob, keeps_alive}

abbrev pub seconds_per_day : ℕ
seconds_per_day = 24 * 60 * 60

-- A `Duration`, in microseconds.
unfoldable pub to_duration : PgInterval → ℕ
to_duration i =
    if ltb_ℤ i.microseconds (pos 0) || ltb_ℤ i.days (pos 0) || ltb_ℤ i.months (pos 0)
    then 0
    else (let days = pos_part i.days + pos_part i.months * 30 in
        pos_part i.microseconds + days * seconds_per_day * 1000000)

-- `mq_poll` and `mq_delete` as they answer on a connection at some moment.
pub record Connection : Type 0 where
  pub poll : Option (List String) → ℤ → Database → Fallible (Database × List PolledMessage)
  pub delete : List ℕ → Database → Fallible Database

-- The connection on which nothing but the database fails, at the time `now`.
abbrev pub direct : (List (String × String) → List (String × String)) → ℕ → Connection
direct shuffle now = record { poll = poll shuffle now; delete = delete }

-- The ids of the messages that were never committed.
unfoldable pub ids_to_delete : List PolledMessage → List ℕ
ids_to_delete [] = []
ids_to_delete (m ∷ ms) =
    let rest = ids_to_delete ms in
    elim m.is_committed [
      | some false ↦ elim m.id [ none ↦ rest | some id ↦ id ∷ rest ]
      | some true ↦ rest
      | none ↦ rest
    ]

-- The least wait of the messages, none if no message has one.
unfoldable pub least_wait : List PolledMessage → Option ℕ
unfolding to_duration
least_wait [] = none
least_wait (m ∷ ms) =
    let rest = least_wait ms in
    elim m.wait_time [
      | none ↦ rest
      | some w ↦ elim rest [ none ↦ some (to_duration w) | some d ↦ some (min (to_duration w) d) ]
    ]

-- MAX_WAIT, 60 seconds
abbrev pub max_wait : ℕ
max_wait = 60000000

abbrev pub unwrap_or : Option ℕ → ℕ → ℕ
unwrap_or none d = d
unwrap_or (some n) d = n

-- The job that a message is dispatched as, if it has what the pattern asks for.
unfoldable pub to_job : Bool → PolledMessage → Option CurrentJob
unfolding to_duration
to_job keep_alive m = elim m.id [
  | none ↦ none
  | some id ↦ elim m.is_committed [
    | none ↦ none
    | some false ↦ none
    | some true ↦ elim m.name [
      | none ↦ none
      | some name ↦ elim m.retry_backoff [
        | none ↦ none
        | some backoff ↦ some (record {
          id = id;
          name = name;
          payload_json = m.payload_json;
          payload_bytes = m.payload_bytes;
          keep_alive = if keep_alive then some (keeps_alive (to_duration backoff)) else none;
        })
      ]
    ]
  ]
]

-- The last loop: a job counts as running before it is handed to `dispatch`.
unfoldable pub dispatch_all : JobRunner → List PolledMessage → JobRunner × List CurrentJob
unfolding to_job
dispatch_all r [] = (r, [])
dispatch_all r (m ∷ ms) =
    let rest = λ (s : JobRunner). dispatch_all s ms in
    elim (to_job r.options.keep_alive m) [
      | none ↦ rest r
      | some job ↦
          let (s, jobs) = rest (record r { running_jobs = r.running_jobs + 1 }) in (s, job ∷ jobs)
    ]

-- What a call leaves: the tables, the runner, the jobs handed out, and the wait or an error.
pub record Polled : Type 0 where
  pub database : Database
  pub runner : JobRunner
  pub dispatched : List CurrentJob
  pub wait : Fallible ℕ

unfoldable pub dispatch_messages : JobRunner → List PolledMessage → Database → Polled
unfolding dispatch_all least_wait
dispatch_messages r ms db =
    let (s, jobs) = dispatch_all r ms in
    record {
      database = db;
      runner = s;
      dispatched = jobs;
      wait = ok (unwrap_or (least_wait ms) max_wait);
    }

unfoldable pub delete_and_dispatch :
    Connection → JobRunner → List PolledMessage → List ℕ → Database → Polled
unfolding dispatch_messages
delete_and_dispatch c r ms [] db = dispatch_messages r ms db
delete_and_dispatch c r ms (id ∷ ids) db = elim (c.delete (id ∷ ids) db) [
  | ok db' ↦ dispatch_messages r ms db'
  | err e ↦ record { database = db; runner = r; dispatched = []; wait = err e }
]

unfoldable pub poll_and_dispatch : Connection → JobRunner → ℤ → Database → Polled
unfolding delete_and_dispatch ids_to_delete
poll_and_dispatch c r batch_size db = elim (c.poll r.options.channel_names batch_size db) [
  | ok (db', ms) ↦ delete_and_dispatch c r ms (ids_to_delete ms) db'
  | err e ↦ record { database = db; runner = r; dispatched = []; wait = err e }
]
