-- ===== src/Sleep/Main/Returns.antt =====
-- The end of `main`.
use sqlxmq.Prelude.{
  ℕ, zero, suc, String, ◌+◌, ◌*◌, ◌≤◌, ◌<◌, ◌≡◌, refl, ◌&&◌, true, false, inl, inr, List, [], ◌∷◌,
  Option, some, Bool-cases, length, ltb, All, All-map, ◌⊎◌, All-of_Memᴰ, All-Memᴰ, str_eq_iff, ◌∙◌,
  Memᴰ, arith,
}
use sqlxmq.Store.{Database}
use sqlxmq.Runner.{CurrentJob, new_options, num_running_jobs, start}
use sqlxmq.Macros.Static.{Scope}
use sqlxmq.Registry.{JobRegistry, BoxedError, resolve_job, get}
use sqlxmq.Sleep.{sleep_job}
use sqlxmq.Sleep.Main.Names.{IsNamed, run_events-All}
use sqlxmq.Tasks.{aborted, awaited}
use sqlxmq.Tasks.Handle.{run, stop_runner, drop_runner}
use sqlxmq.Sleep.Main.{
  MainRun, MainEvent, wake, wait_finish, run_events, spawn_sleep, at_start, shut_down, main,
}
use sqlxmq.Sleep.Main.Counts.{Counts, SleepsOn, wake-Counts, wake-All, run_events-Counts}

none_asleep : (late : ℕ) (s : MainRun) → length s.sleeping ≡ 0 → SleepsOn late s
none_asleep late s h = empty s.sleeping h
  where
    empty :
        (ts : List (CurrentJob × ℕ)) → length ts ≡ 0 → All (λ (t : CurrentJob × ℕ). late < t.1) ts
    empty [] h = tt
    empty (t ∷ ts) h = absurd (omega arith)

-- Enough fuel for the sleeps until the timeout makes `wait_jobs_finish` return; the jobs that sleep
-- then, which are those that run, end after the timeout.
wait_finish-some :
    (others : ℕ → Database → Database) (since timeout : ℕ) (P : CurrentJob × ℕ → Type 0)
    (fuel elapsed : ℕ) (s : MainRun)
    → timeout + 10000 ≤ elapsed + fuel * 10000
    → elapsed < timeout + 10000
    → Counts 0 s
    → SleepsOn (since + elapsed) s
    → All P s.sleeping
    → (s' : MainRun) × (wait_finish others since timeout fuel elapsed s ≡ some s')
      × (s'.runner.running_jobs ≡ length s'.sleeping)
      × SleepsOn (since + timeout) s'
      × All P s'.sleeping
unfolding wait_finish num_running_jobs
wait_finish-some others since timeout P zero elapsed s more early h on p = absurd (omega arith)
wait_finish-some others since timeout P (suc fuel) elapsed s more early h on p =
    elim (Bool-cases (ltb 0 s.runner.running_jobs && ltb elapsed timeout)) [
      | inl e ↦
          let later = elapsed + 10000 in
          let s₁ = record s { database = others (since + later) s.database } in
          let (h', on') = wake-Counts (since + later) s₁ h in
          let (s', q, n, late, all) =
            wait_finish-some others since timeout P fuel later (wake (since + later) s₁)
              (omega (arith, more)) (before e) h' on' (wake-All P (since + later) s₁ p) in
          (s', rw (e, wait_finish) q, n, late, all)
      | inr e ↦ (s, rw (e, wait_finish) refl, omega (arith, h), left e, p)
    ]
  where
    before :
        (ltb 0 s.runner.running_jobs && ltb elapsed timeout) ≡ true
        → elapsed + 10000 < timeout + 10000
    before e = ground arith

    past :
        (ltb 0 s.runner.running_jobs && ltb elapsed timeout) ≡ false
        → (length s.sleeping ≡ 0) ⊎ (timeout ≤ elapsed)
    past e = ground (arith, h)

    left :
        (ltb 0 s.runner.running_jobs && ltb elapsed timeout) ≡ false → SleepsOn (since + timeout) s
    left e = elim (past e) [
      | inl z ↦ none_asleep (since + timeout) s z
      | inr l ↦ All-map s.sleeping (λ t k. omega arith) on
    ]

shut_down-some :
    (others : ℕ → Database → Database) (stopped fuel task : ℕ) (s s' : MainRun)
    → wait_finish others stopped 10000000 fuel 0 (wake stopped s) ≡ some s'
    → shut_down others stopped fuel (run new_options task) s
      ≡ some (s', aborted task ∷ awaited task ∷ [])
unfolding shut_down run stop_runner drop_runner
shut_down-some others stopped fuel task s s' e = rw (e, shut_down) refl

began-Counts : (db : Database) → Counts 0 (at_start (start new_options) db)
unfolding start new_options
began-Counts db = omega arith

-- The registry that `main` makes.
abbrev pub sleep_registry :
    {F C E R : Type 0} → Scope F C E R → (String → BoxedError E → R) → JobRegistry C E R
sleep_registry sc log_error = record {
  environment = record { error_handler = log_error; context = [] };
  job_map = ((sleep_job sc).name, sleep_job sc) ∷ [];
}

module _ {F C E R : Type 0} (sc : Scope F C E R) (log_error : String → BoxedError E → R)
    (to_string : ℕ → Option String) (to_jsonb : String → Option String)
    (from_str : String → Option ℕ) (shuffle : List (String × String) → List (String × String))
    (others : ℕ → Database → Database) where
  only_sleep :
      (t : CurrentJob × ℕ)
      → IsNamed (sleep_registry sc log_error) from_str t
      → t.0.name ≡ (sleep_job sc).name
  unfolding resolve_job get
  only_sleep t (named, e) = ground (arith, str_eq_iff (sleep_job sc).name t.0.name)

  -- What `main` does after the spawn.
  main-shut_down :
      (now drawn task : ℕ) (events : List MainEvent) (stopped fuel : ℕ) (db spawned : Database)
      → spawn_sleep sc to_string to_jsonb now drawn db ≡ some spawned
      → main sc log_error to_string to_jsonb from_str shuffle others now drawn task events stopped
          fuel db
        ≡ shut_down others stopped fuel (run new_options task) (
            run_events
              (sleep_registry sc log_error)
              from_str
              shuffle
              events
              (at_start (start new_options) spawned))
  unfolding main run
  main-shut_down now drawn task events stopped fuel db spawned e = rw (e, main) refl

  -- Whatever the queue holds, jobs of other names included, and whatever the runner's rounds and the
  -- keep-alive calls are until the stop signal and after it: where the job is spawned, `main` returns,
  -- with fuel for 1001 tests of the loop that waits. The task of the main loop is aborted and awaited
  -- once. The jobs that the runner then still counts as running are those that sleep on; they have the
  -- name of the job `sleep`, slept at the signal, and none of them ends within 10 seconds of it.
  pub shut_down_lem :
      (now drawn task : ℕ) (events : List MainEvent) (stopped fuel : ℕ) (db spawned : Database)
      → spawn_sleep sc to_string to_jsonb now drawn db ≡ some spawned
      → 1001 ≤ fuel
      → let registry = sleep_registry sc log_error in
        let began = at_start (start new_options) spawned in
        let at_stop = run_events registry from_str shuffle events began in
        (s : MainRun) × (main sc log_error to_string to_jsonb from_str shuffle others now drawn task
            events stopped fuel db
          ≡ some (s, aborted task ∷ awaited task ∷ []))
        × (s.runner.running_jobs ≡ length s.sleeping)
        × All (λ (t : CurrentJob × ℕ). stopped + 10000000 < t.1) s.sleeping
        × All (λ (t : CurrentJob × ℕ). t.0.name ≡ (sleep_job sc).name) s.sleeping
        × All (λ t. Memᴰ t at_stop.sleeping) s.sleeping
  shut_down_lem now drawn task events stopped fuel db spawned e enough =
      let registry = sleep_registry sc log_error in
      let began = at_start (start new_options) spawned in
      let at_stop = run_events registry from_str shuffle events began in
      let h = run_events-Counts registry from_str shuffle events began (began-Counts spawned) in
      let names = run_events-All registry from_str shuffle events began tt in
      let (h', on) = wake-Counts stopped at_stop h in
      let (s, q, n, late, all) =
        wait_finish-some others stopped 10000000 (λ t. Memᴰ t at_stop.sleeping) fuel 0
          (wake stopped at_stop) (omega arith) (omega arith) h'
          (All-map (wake stopped at_stop).sleeping (λ t k. omega arith) on)
          (wake-All _ stopped at_stop (All-of_Memᴰ _ at_stop.sleeping (λ t k. k))) in
      (
        s,
        main-shut_down now drawn task events stopped fuel db spawned e
            ∙ shut_down-some others stopped fuel task at_stop s q,
        n,
        late,
        All-map s.sleeping
            (λ t k. only_sleep t (All-Memᴰ (IsNamed registry from_str) at_stop.sleeping names k))
            all,
        all,
      )
