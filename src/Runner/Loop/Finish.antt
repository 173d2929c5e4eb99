-- ===== src/Runner/Loop/Finish.antt =====
-- Waiting for the running jobs to finish.
use sqlxmq.Prelude.{ℕ, suc, ◌+◌, ◌*◌, ◌<◌, ◌≡◌, List, [], ◌∷◌, take, All, arith, zero}
use sqlxmq.Runner.Loop.{wait_jobs_finish}

-- What a test that passed says.
sleeps_on :
    (timeout elapsed n k : ℕ) (ns : List ℕ)
    → wait_jobs_finish timeout elapsed (n ∷ ns) ≡ suc k
    → (0 < n) × (elapsed < timeout) × (wait_jobs_finish timeout (elapsed + 10000) ns ≡ k)
unfolding wait_jobs_finish
sleeps_on timeout elapsed n k ns e = ground arith

-- Each sleep of `wait_jobs_finish` starts with jobs that run, and before the timeout has passed since
-- the start, 10 ms counted for each sleep before it.
pub wait_jobs_finish_lem :
    (timeout elapsed : ℕ) (counts : List ℕ) (k : ℕ)
    → wait_jobs_finish timeout elapsed counts ≡ suc k
    → (elapsed + k * 10000 < timeout) × All (λ n. 0 < n) (take (suc k) counts)
unfolding wait_jobs_finish
wait_jobs_finish_lem timeout elapsed [] k e = absurd (omega arith)
wait_jobs_finish_lem timeout elapsed (n ∷ ns) zero e =
    let (runs, early, _) = sleeps_on timeout elapsed n zero ns e in (omega arith, (runs, tt))
wait_jobs_finish_lem timeout elapsed (n ∷ ns) (suc k) e =
    let (runs, early, rest) = sleeps_on timeout elapsed n (suc k) ns e in
    let (later, all) = wait_jobs_finish_lem timeout (elapsed + 10000) ns k rest in
    (omega arith, (runs, all))
