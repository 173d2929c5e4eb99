-- ===== src/Runner/KeepAlive/Lease.antt =====
-- When a job that its runner keeps alive is due.
use sqlxmq.Prelude.{
  ℕ, ◌+◌, ◌*◌, ◌/◌, ◌≤◌, ◌<◌, ◌≡◌, ◌⊎◌, inl, inr, false, List, [], ◌∷◌, none, some, arith, All,
  Bool-cases,
}
use sqlxmq.Store.{Message}
use sqlxmq.Store.Schedule.{keep_message_alive}
use sqlxmq.Store.Poll.{is_due}
use sqlxmq.Runner.KeepAlive.{Wakeup, Kept, keep_job_alive}

-- The row waits out the interval, or was polled for the last time.
abbrev pub IsLeased : ℕ → ℕ → Message → Type 0
IsLeased now interval m = (m.attempt_at ≡ none) ⊎ (m.attempt_at ≡ some (now + interval))

-- Every statement runs before the time to the next attempt is over.
abbrev pub InTime : ℕ → List Wakeup → Type 0
InTime interval [] = Unit {0}
InTime interval (w ∷ ws) = (interval / 2 + w.late < interval) × InTime (interval * 2) ws

IsLeased-is_due :
    (now interval t : ℕ) (m : Message)
    → t < now + interval
    → IsLeased now interval m
    → is_due t m ≡ false
IsLeased-is_due now interval t m h l = ground arith

keep_message_alive-IsLeased :
    (now interval time : ℕ) (m : Message)
    → now + interval < time + interval * 2
    → IsLeased now interval m
    → IsLeased time (interval * 2) (keep_message_alive (time + interval * 2) m)
unfolding keep_message_alive
keep_message_alive-IsLeased now interval time m h l = ground arith

-- A job polled at `now` with the backoff `interval`, whose task runs each statement before half of
-- the interval that it slept for has passed again, is due at no moment up to each statement.
pub keep_job_alive-All :
    (now interval : ℕ) (ws : List Wakeup) (m : Message)
    → IsLeased now interval m
    → InTime interval ws
    → All
        (λ (k : Kept). (t : ℕ) → t ≤ k.time → is_due t k.row ≡ false)
        (keep_job_alive now interval ws m)
unfolding keep_job_alive
keep_job_alive-All now interval [] m l h = tt
keep_job_alive-All now interval (w ∷ ws) m l h =
    let time = now + interval / 2 + w.late in
    let rest =
      keep_job_alive-All time (interval * 2) ws (keep_message_alive (time + interval * 2) m)
        (keep_message_alive-IsLeased now interval time m (omega arith) l) h.1 in
    (
      λ t before. IsLeased-is_due now interval t m (omega arith) l,
      elim (Bool-cases w.succeeds) [ inl e ↦ rw e rest | inr e ↦ rw e tt ],
    )
