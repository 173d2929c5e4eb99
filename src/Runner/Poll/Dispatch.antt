-- ===== src/Runner/Poll/Dispatch.antt =====
-- What becomes of the rows of a poll.
use sqlxmq.Prelude.{
  ◌+◌, ◌≤◌, ◌≡◌, refl, Bool, List, [], ◌∷◌, some, length, arith, Option-cases, inl, inr,
}
use sqlxmq.Store.Poll.{PolledMessage}
use sqlxmq.Store.Poll.Bound.{message_rows}
use sqlxmq.Runner.{JobRunner, CurrentJob}
use sqlxmq.Runner.Poll.{to_job, dispatch_all}

pub to_job-id :
    (keep : Bool) (m : PolledMessage) (job : CurrentJob)
    → to_job keep m ≡ some job
    → m.id ≡ some job.id
unfolding to_job
to_job-id keep m job e = ground arith

-- Dispatching counts each job that it hands out as running; it hands out at most one for each row
-- that stands for a message, and changes nothing else of the runner.
pub dispatch_all_running :
    (r : JobRunner) (rows : List PolledMessage)
    → ((dispatch_all r rows).0.running_jobs ≡ r.running_jobs + length (dispatch_all r rows).1)
      × (length (dispatch_all r rows).1 ≤ length (message_rows rows))
      × ((dispatch_all r rows).0.options ≡ r.options)
      × ((dispatch_all r rows).0.permit ≡ r.permit)
unfolding dispatch_all
dispatch_all_running r [] = (omega arith, omega arith, refl, refl)
dispatch_all_running r (m ∷ rows) = elim (Option-cases (to_job r.options.keep_alive m)) [
  | inl e ↦
      let ih = dispatch_all_running r rows in
      rw (e, dispatch_all) (ih.0, ground (arith, ih), ih.2, ih.3)
  | inr (job, e) ↦
      let ih = dispatch_all_running (record r { running_jobs = r.running_jobs + 1 }) rows in
      let i = to_job-id r.options.keep_alive m job e in
      rw (e, dispatch_all) (omega (arith, ih.0), ground (arith, ih, i), ih.2, ih.3)
]
