-- ===== src/Runner/Loop/Concurrency.antt =====
-- The runner's loop, the jobs that finish and the listener, interleaved in any order.
use sqlxmq.Prelude.{
  ℕ, suc, pos, as_i32, ◌+◌, ◌-◌, ◌≤◌, ◌<◌, ◌≡◌, refl, sym, ap, ◌∙◌, ◌⊎◌, inl, inr, true, false,
  List, ltb, length, arith, subst,
}
use sqlxmq.Store.Poll.{PolledMessage}
use sqlxmq.Store.Poll.Bound.{message_rows}
use sqlxmq.Runner.{JobRunner, JobRunnerOptions, start, drop_job, notify_one}
use sqlxmq.Runner.Poll.{dispatch_all}
use sqlxmq.Runner.Poll.Dispatch.{dispatch_all_running}
use sqlxmq.Runner.Loop.{batch_size}

-- With the jobs that run no more than the maximum, and that an `i32`, the batch size is what is left.
pub batch_size-exact :
    (o : JobRunnerOptions) (running : ℕ)
    → running ≤ o.max_concurrency
    → o.max_concurrency ≤ 2147483647
    → batch_size o running ≡ pos (o.max_concurrency - running)
unfolding batch_size as_i32
batch_size-exact o running h k = ground arith

pos_injective : {a b : ℕ} → pos a ≡ pos b → a ≡ b
pos_injective e = cc

-- Where the main loop is.
pub data Phase : Type 0 where
  loading : Phase
  -- It read that many jobs, fewer than the minimum, and polls.
  polling : ℕ → Phase
  -- It waits after a poll.
  rested : Phase
  -- It read that no fewer jobs than the minimum run, and waits.
  full : Phase

pub record Loop : Type 0 where
  pub phase : Phase
  pub runner : JobRunner

pub data Step (l : Loop) : Loop → Type 0 where
  loads_few :
      l.phase ≡ loading
      → ltb l.runner.running_jobs l.runner.options.min_concurrency ≡ true
      → Step l (record { phase = polling l.runner.running_jobs; runner = l.runner })
  loads_full :
      l.phase ≡ loading
      → ltb l.runner.running_jobs l.runner.options.min_concurrency ≡ false
      → Step l (record { phase = full; runner = l.runner })
  -- The poll answers no more messages than the batch size says.
  dispatches :
      (read n : ℕ) (rows : List PolledMessage)
      → l.phase ≡ polling read
      → batch_size l.runner.options read ≡ pos n
      → length (message_rows rows) ≤ n
      → Step l (record { phase = rested; runner = (dispatch_all l.runner rows).0 })
  fails :
      (read : ℕ) → l.phase ≡ polling read → Step l (record { phase = rested; runner = l.runner })
  -- A job that runs is dropped.
  drops :
      0 < l.runner.running_jobs → Step l (record { phase = l.phase; runner = drop_job l.runner })
  notifies : Step l (record { phase = l.phase; runner = notify_one l.runner })
  -- The wait ends with the permit, or with the timeout.
  wakes :
      (l.phase ≡ rested) ⊎ (l.phase ≡ full)
      → l.runner.permit ≡ true
      → Step l (record { phase = loading; runner = record l.runner { permit = false } })
  times_out :
      (l.phase ≡ rested) ⊎ (l.phase ≡ full) → Step l (record { phase = loading; runner = l.runner })

pub data Reach (start : Loop) : Loop → Type 0 where
  here : Reach start start
  next : {l l' : Loop} → Reach start l → Step l l' → Reach start l'

-- What holds of the runner in each phase.
abbrev pub InPhase : JobRunnerOptions → Phase → JobRunner → Type 0
InPhase o loading r = Unit {0}
InPhase o (polling read) r = (r.running_jobs ≤ read) × (read < o.min_concurrency)
InPhase o rested r = Unit {0}
InPhase o full r = (o.min_concurrency ≤ r.running_jobs) ⊎ (r.permit ≡ true)

pub record Inv (o : JobRunnerOptions) (l : Loop) : Type 0 where
  pub same : l.runner.options ≡ o
  pub bounded : l.runner.running_jobs ≤ o.max_concurrency
  pub in_phase : InPhase o l.phase l.runner

-- A dropped job leaves the bounds, and the permit where the count falls below the minimum.
drop_job-InPhase :
    (o : JobRunnerOptions) (p : Phase) (r : JobRunner)
    → r.options ≡ o
    → 0 < r.running_jobs
    → InPhase o p r
    → InPhase o p (drop_job r)
unfolding drop_job
drop_job-InPhase o loading r e h i = tt
drop_job-InPhase o (polling read) r e h i = ground arith
drop_job-InPhase o rested r e h i = tt
drop_job-InPhase o full r e h i = ground (arith, ap (λ (x : JobRunnerOptions). x.min_concurrency) e)

drop_job_facts :
    (r : JobRunner)
    → 0 < r.running_jobs
    → ((drop_job r).options ≡ r.options) × (suc (drop_job r).running_jobs ≡ r.running_jobs)
unfolding drop_job
drop_job_facts r h = ground arith

notify_one-InPhase :
    (o : JobRunnerOptions) (p : Phase) (r : JobRunner) → InPhase o p r → InPhase o p (notify_one r)
notify_one-InPhase o loading r i = tt
notify_one-InPhase o (polling read) r i = i
notify_one-InPhase o rested r i = tt
notify_one-InPhase o full r i = inr refl

module _ (o : JobRunnerOptions) (ordered : o.min_concurrency ≤ o.max_concurrency)
    (small : o.max_concurrency ≤ 2147483647) where
  batch_bound :
      (l : Loop) (read n : ℕ)
      → Inv o l
      → l.phase ≡ polling read
      → batch_size l.runner.options read ≡ pos n
      → l.runner.running_jobs + n ≤ o.max_concurrency
  batch_bound l read n v p b =
      let (low, few) = subst (λ x. InPhase o x l.runner) p v.in_phase in
      let e =
        sym (batch_size-exact o read (omega arith) small)
        ∙ ap (λ x. batch_size x read) (sym v.same)
        ∙ b in
      omega (arith, pos_injective e)

  Step-Inv : {l l' : Loop} → Step l l' → Inv o l → Inv o l'
  Step-Inv {l} (loads_few p t) v = record {
    same = v.same;
    bounded = v.bounded;
    in_phase = ground (arith, ap (λ (x : JobRunnerOptions). x.min_concurrency) v.same);
  }
  Step-Inv {l} (loads_full p t) v = record {
    same = v.same;
    bounded = v.bounded;
    in_phase = inl (ground (arith, ap (λ (x : JobRunnerOptions). x.min_concurrency) v.same));
  }
  Step-Inv {l} (dispatches read n rows p b h) v =
      let (running, handed, same, _) = dispatch_all_running l.runner rows in
      record {
        same = same ∙ v.same;
        bounded = omega (arith, batch_bound l read n v p b);
        in_phase = tt;
      }
  Step-Inv (fails read p) v = record { same = v.same; bounded = v.bounded; in_phase = tt }
  Step-Inv {l} (drops h) v =
      let (same, fewer) = drop_job_facts l.runner h in
      record {
        same = same ∙ v.same;
        bounded = omega (arith, v.bounded);
        in_phase = drop_job-InPhase o l.phase l.runner v.same h v.in_phase;
      }
  Step-Inv {l} notifies v = record {
    same = v.same;
    bounded = v.bounded;
    in_phase = notify_one-InPhase o l.phase l.runner v.in_phase;
  }
  Step-Inv (wakes p t) v = record { same = v.same; bounded = v.bounded; in_phase = tt }
  Step-Inv (times_out p) v = record { same = v.same; bounded = v.bounded; in_phase = tt }

  -- As `run` starts it.
  abbrev pub started : Loop
  started = record { phase = loading; runner = start o }

  Reach-Inv : {l : Loop} → Reach started l → Inv o l
  unfolding start
  Reach-Inv here = record { same = refl; bounded = omega arith; in_phase = tt }
  Reach-Inv (next r s) = Step-Inv s (Reach-Inv r)

  -- With a minimum no more than the maximum, and that within an `i32`: however polls, finished jobs,
  -- notifications and timeouts follow one another, no more jobs run than the maximum.
  pub running_bounded : {l : Loop} → Reach started l → l.runner.running_jobs ≤ o.max_concurrency
  running_bounded r = (Reach-Inv r).bounded

  -- With the same limits, no wakeup is lost: where the main loop waits because it has read that no
  -- fewer jobs than the minimum run, and fewer run by now, the permit is there, so that its wait
  -- need not last until the timeout.
  pub wakeup_kept :
      (l : Loop)
      → Reach started l
      → l.phase ≡ full
      → l.runner.running_jobs < o.min_concurrency
      → l.runner.permit ≡ true
  wakeup_kept l r p h = ground (arith, subst (λ x. InPhase o x l.runner) p (Reach-Inv r).in_phase)
