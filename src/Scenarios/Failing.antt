-- ===== src/Scenarios/Failing.antt =====
-- The test `it_retries_failed_jobs`.
use sqlxmq.Prelude.{
  ℕ, suc, String, ◌≤◌, ◌<◌, ◌≡◌, ◌≢◌, refl, ap, ◌∙◌, false, List, [], ◌∷◌, ◌++◌, Option, none, some,
  arith, length,
}
use sqlxmq.Store.{Database, uuid_nil}
use sqlxmq.Store.Poll.Select.{Channel, Keeps}
use sqlxmq.Store.Consistent.{IsConsistent}
use sqlxmq.Spawn.{new, set_retries, set_retry_backoff}
use sqlxmq.Spawn.Unordered.{unordered_row}
use sqlxmq.Scenarios.Cases.{it_retries_failed_jobs}
use sqlxmq.Scenarios.Start.{test_pool-ok}
use sqlxmq.Scenarios.Attempts.{runs, runs-le, IsSpaced, runs-IsSpaced}
use sqlxmq.Scenarios.Retries.{pause-returns}
use sqlxmq.Scenarios.Spawned.{builder_of, payload_of, spawn_all-builder_of}

-- Whatever tables consistent with the constraints the test finds, and whenever the rounds of its
-- runner are: the counter of jobs that it reads after them is the number of those of the first
-- retries + 1 attempts that a round came for, each a backoff after the last one, which doubles; so it
-- is never more than retries + 1.
pub it_retries_failed_jobs_lem :
    (shuffle : List Channel → List Channel) (to_jsonb : String → Option String)
    (drawn retries backoff now : ℕ) (times : List ℕ) (db : Database)
    → Keeps shuffle
    → ((c : Channel) → shuffle (c ∷ []) ≡ c ∷ [])
    → IsConsistent db.messages
    → drawn ≢ uuid_nil
    → retries < 2147483647
    → (it_retries_failed_jobs shuffle to_jsonb drawn retries backoff now times db
        ≡ some (runs (suc retries) now backoff times))
      × (runs (suc retries) now backoff times ≤ suc retries)
unfolding it_retries_failed_jobs new set_retries set_retry_backoff
it_retries_failed_jobs_lem shuffle to_jsonb drawn retries backoff now times db keeps only c nn h =
    let (z, e, is_nil, _, c') = test_pool-ok db c in
    let start = record db { messages = z ∷ []; payloads = [] } in
    let b = builder_of drawn retries backoff none in
    let (sent, spawned) =
      spawn_all-builder_of to_jsonb drawn retries backoff now none none z start refl c' is_nil nn h
        refl refl in
    (
      rw e (
          rw spawned (
            ap (λ (n : ℕ). some n)
              (pause-returns shuffle keeps only z is_nil (unordered_row now b)
                  (payload_of drawn none) sent false nn refl refl refl times (suc retries) now
                  backoff 0 (omega arith)
                ∙ omega arith))),
      runs-le (suc retries) now backoff times,
    )

-- Where the runner has a round for each attempt, the job that fails each time runs exactly retries + 1
-- times, whatever rounds there are after that.
pub it_retries_failed_jobs-exact :
    (shuffle : List Channel → List Channel) (to_jsonb : String → Option String)
    (drawn retries backoff now : ℕ) (times more : List ℕ) (db : Database)
    → Keeps shuffle
    → ((c : Channel) → shuffle (c ∷ []) ≡ c ∷ [])
    → IsConsistent db.messages
    → drawn ≢ uuid_nil
    → retries < 2147483647
    → IsSpaced now backoff times
    → length times ≡ suc retries
    → it_retries_failed_jobs shuffle to_jsonb drawn retries backoff now (times ++ more) db
      ≡ some (suc retries)
it_retries_failed_jobs-exact shuffle to_jsonb drawn retries backoff now times more db keeps only c
      nn h spaced enough =
    (it_retries_failed_jobs_lem shuffle to_jsonb drawn retries backoff now (times ++ more) db keeps
      only c nn h).0
    ∙ ap (λ (n : ℕ). some n) (runs-IsSpaced (suc retries) now backoff times more spaced enough)
