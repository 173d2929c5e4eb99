-- ===== src/Store/Schedule/TwoPhase.antt =====
-- Two-phase commit, and keeping a message alive before it is committed.
use sqlxmq.Prelude.{ℕ, ◌≤◌, ◌≡◌, some, arith}
use sqlxmq.Store.{Message}
use sqlxmq.Store.Schedule.{commit_message, keep_message_alive}

-- Keeping an uncommitted message alive, whose commit interval is part of its time to the next attempt,
-- does not change when it is due once it is committed.
pub commit_message-keep_message_alive :
    (target due c : ℕ) (m : Message)
    → m.attempt_at ≡ some due
    → m.commit_interval ≡ some c
    → c ≤ due
    → commit_message (keep_message_alive target m) ≡ commit_message m
unfolding commit_message keep_message_alive
commit_message-keep_message_alive target due c m a i h = ground arith
