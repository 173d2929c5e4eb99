-- ===== src/Scenarios/Cases.antt =====
-- The functions under `#[tokio::test]` in src/lib.rs: the counters that they read, at given moments
-- of the rounds in their pauses, or none where they panic. `drawn` are the ids of the jobs.
use sqlxmq.Prelude.{
  ℕ, String, Bool, true, false, List, [], ◌∷◌, Option, none, some, Fallible, ok, err,
}
use sqlxmq.Store.{Database}
use sqlxmq.Spawn.{
  JobBuilder, new, set_channel_name, set_ordered, set_retries, set_retry_backoff, set_json, spawn,
  clear,
}
use sqlxmq.Runner.Job.{complete}
use sqlxmq.Scenarios.{
  TestRun, test_pool, test_job_runner, completes, returns, sends, checkpoints, pause,
}

-- `unwrap`
abbrev pub unwrap {ℓ} : {A : Type ℓ} → Fallible A → Option A
unwrap (ok a) = some a
unwrap (err e) = none

infixl 5 ◌>>=◌
abbrev pub ◌>>=◌ {ℓ κ} : {A : Type ℓ} {B : Type κ} → Option A → (A → Option B) → Option B
none >>= then = none
some a >>= then = then a

-- `rx.next()` and the job's completion; the job is dropped at the end of the test. None, too, where
-- the test waits for a job that does not come.
unfoldable pub complete_next : TestRun → Option TestRun
unfolding complete
complete_next s = elim s.received [
  | [] ↦ none
  | job ∷ rest ↦ do
    db ← unwrap (complete job s.database).0
    some (record s { database = db; received = rest })
]

-- The jobs, one after the other, at their times.
unfoldable pub spawn_all :
    (String → Option String) → List (ℕ × JobBuilder) → TestRun → Option TestRun
unfolding spawn
spawn_all to_jsonb [] s = some s
spawn_all to_jsonb ((now, b) ∷ rest) s = do
  (db, id) ← unwrap (spawn to_jsonb now b s.database)
  spawn_all to_jsonb rest (record s { database = db })

module _ (shuffle : List (String × String) → List (String × String))
    (to_jsonb : String → Option String) where
  unfoldable pub it_can_spawn_job : ℕ → ℕ → List ℕ → List ℕ → Database → Option ℕ
  unfolding test_pool test_job_runner spawn_all pause new
  it_can_spawn_job drawn now before times db = do
    db' ← test_pool db
    let s = pause shuffle completes before (test_job_runner db')
    s' ← spawn_all to_jsonb ((now, new drawn "foo") ∷ []) s
    some (pause shuffle completes times s').counter

  -- The channels of the six jobs, two in each.
  unfoldable pub it_can_clear_jobs : List (ℕ × ℕ) → List ℕ → Database → Option ℕ
  unfolding test_pool test_job_runner spawn_all pause new set_channel_name clear
  it_can_clear_jobs jobs times db = do
    db' ← test_pool db
    s ←
        spawn_all to_jsonb (in_channels jobs ("foo" ∷ "foo" ∷ "bar" ∷ "bar" ∷ "baz" ∷ "baz" ∷ []))
          (test_job_runner db')
    db'' ← unwrap (clear ("foo" ∷ "baz" ∷ []) s.database)
    some (pause shuffle completes times (test_job_runner db'')).counter
    where
      in_channels : List (ℕ × ℕ) → List String → List (ℕ × JobBuilder)
      in_channels [] names = []
      in_channels (job ∷ jobs) [] = []
      in_channels ((now, drawn) ∷ jobs) (name ∷ names) =
          (now, set_channel_name name (new drawn "foo")) ∷ in_channels jobs names

  -- The counters before and after the first job is completed, which `rx` has by then.
  unfoldable pub it_runs_jobs_in_order : ℕ → ℕ → ℕ → List ℕ → List ℕ → Database → Option (ℕ × ℕ)
  unfolding test_pool test_job_runner spawn_all pause new set_ordered complete_next
  it_runs_jobs_in_order first second now times later db = do
    db' ← test_pool db
    s ←
        spawn_all to_jsonb
          ((now, set_ordered true (new first "foo"))
            ∷ (now, set_ordered true (new second "bar"))
            ∷ [])
          (test_job_runner db')
    let s₁ = pause shuffle sends times s
    s₂ ← complete_next s₁
    some (s₁.counter, (pause shuffle sends later s₂).counter)

  unfoldable pub it_runs_jobs_in_parallel : ℕ → ℕ → ℕ → List ℕ → Database → Option ℕ
  unfolding test_pool test_job_runner spawn_all pause new complete_next
  it_runs_jobs_in_parallel first second now times db = do
    db' ← test_pool db
    s ←
        spawn_all to_jsonb ((now, new first "foo") ∷ (now, new second "bar") ∷ [])
          (test_job_runner db')
    let s₁ = pause shuffle sends times s
    s₂ ← complete_next s₁
    s₃ ← complete_next s₂
    some s₁.counter

  -- With any number of retries, which is 2, and any backoff.
  unfoldable pub it_retries_failed_jobs : ℕ → ℕ → ℕ → ℕ → List ℕ → Database → Option ℕ
  unfolding test_pool test_job_runner spawn_all pause new set_retries set_retry_backoff
  it_retries_failed_jobs drawn retries backoff now times db = do
    db' ← test_pool db
    s ←
        spawn_all to_jsonb
          ((now, set_retries retries (set_retry_backoff backoff (new drawn "foo"))) ∷ [])
          (test_job_runner db')
    some (pause shuffle returns times s).counter

  -- With any number of retries, which is 5, and any backoff.
  unfoldable pub it_can_checkpoint_jobs :
      (String → Option Bool) → (Bool → Option String) → ℕ → ℕ → ℕ → ℕ → List ℕ → Database → Option ℕ
  unfolding test_pool test_job_runner spawn_all pause new set_retries set_retry_backoff set_json
      checkpoints
  it_can_checkpoint_jobs from_str to_string drawn retries backoff now times db = do
    db' ← test_pool db
    b ←
        set_json (to_string false)
          (set_retries retries (set_retry_backoff backoff (new drawn "foo")))
    s ← spawn_all to_jsonb ((now, b) ∷ []) (test_job_runner db')
    some (pause shuffle (checkpoints to_jsonb from_str to_string) times s).counter
