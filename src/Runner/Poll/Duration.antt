-- ===== src/Runner/Poll/Duration.antt =====
-- The times that the runner reads from the database.
use sqlxmq.Prelude.{ℕ, ◌-◌, ◌≡◌, arith}
use sqlxmq.Store.Poll.{time_difference}
use sqlxmq.Runner.Poll.{to_duration}

-- The time to wait for a message that is due at `a` is read exactly, days folded out and back, and
-- is 0 for one that was due before `now`.
pub to_duration-time_difference : (a now : ℕ) → to_duration (time_difference a now) ≡ a - now
unfolding to_duration time_difference
to_duration-time_difference a now = ground arith
