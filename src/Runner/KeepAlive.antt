-- ===== src/Runner/KeepAlive.antt =====
-- `keep_job_alive` of src/runner.rs, and the row of the message that it keeps alive. A time is that
-- of a statement's transaction.
pub mod Lease
use sqlxmq.Prelude.{ℕ, ◌+◌, ◌*◌, ◌/◌, Bool, true, false, List, [], ◌∷◌}
use sqlxmq.Store.{Message}
use sqlxmq.Store.Schedule.{keep_message_alive}

-- What a round of the loop meets: how long after the end of its sleep the statement runs, and
-- whether it succeeds.
pub record Wakeup : Type 0 where
  pub late : ℕ
  pub succeeds : Bool

-- A statement that ran: when, and the row as it found it.
pub record Kept : Type 0 where
  pub time : ℕ
  pub row : Message

-- From `now`, where `interval` counts from: sleep for half of it, double it, and keep the job alive
-- for that long. An error ends the loop.
unfoldable pub keep_job_alive : ℕ → ℕ → List Wakeup → Message → List Kept
unfolding keep_message_alive
keep_job_alive now interval [] m = []
keep_job_alive now interval (w ∷ ws) m =
    let time = now + interval / 2 + w.late in
    let doubled = interval * 2 in
    let rest = keep_job_alive time doubled ws (keep_message_alive (time + doubled) m) in
    record { time = time; row = m } ∷ (elim w.succeeds [ true ↦ rest | false ↦ [] ])
