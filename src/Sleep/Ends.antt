-- ===== src/Sleep/Ends.antt =====
-- The end of the job `sleep`.
use sqlxmq.Prelude.{
  ℕ, zero, suc, String, ◌+◌, ◌*◌, ◌≤◌, ◌≡◌, ◌≢◌, refl, List, [], ◌∷◌, Option, some, arith,
}
use sqlxmq.Store.{Database, uuid_nil}
use sqlxmq.Store.Consistent.{IsConsistent}
use sqlxmq.Spawn.{second}
use sqlxmq.Runner.{CurrentJob}
use sqlxmq.Runner.Job.{json, complete}
use sqlxmq.Runner.Job.Complete.{IsHead, Completes, complete_head}
use sqlxmq.Sleep.{Call, printed, slept, sleep_loop, ended, sleep}

-- A line for each second, from the first to the last, and a sleep after each.
abbrev pub countdown : ℕ → ℕ → List Call
countdown id zero = []
countdown id (suc n) = printed id (suc n) ∷ slept second ∷ countdown id n

-- The time that the calls sleep.
abbrev pub time_slept : List Call → ℕ
time_slept [] = 0
time_slept (printed id to_sleep ∷ calls) = time_slept calls
time_slept (slept duration ∷ calls) = duration + time_slept calls

time_slept-countdown : (id n : ℕ) → time_slept (countdown id n) ≡ n * second
time_slept-countdown id zero = refl
time_slept-countdown id (suc n) = let e = time_slept-countdown id n in omega arith

sleep_loop-countdown : (fuel id n : ℕ) → n ≤ fuel → sleep_loop fuel id n ≡ some (countdown id n)
unfolding sleep_loop
sleep_loop-countdown zero id zero h = refl
sleep_loop-countdown zero id (suc n) h = absurd (omega arith)
sleep_loop-countdown (suc fuel) id zero h = refl
sleep_loop-countdown (suc fuel) id (suc n) h =
    let rest = sleep_loop-countdown fuel id n (omega arith) in ground (arith, rest)

json-some :
    (from_str : String → Option ℕ) (job : CurrentJob) (text : String) (n : ℕ)
    → job.payload_json ≡ some text
    → from_str text ≡ some n
    → json from_str job ≡ some (some n)
unfolding json
json-some from_str job text n e₁ e₂ = rw (e₁, json) (rw e₂ refl)

-- The job `sleep` whose payload is read as n needs n rounds of its loop, whatever more it might have:
-- it counts n, …, 1 down, sleeps n seconds in all and then completes. Where the table of messages is
-- consistent then and the job's message, which is not the nil one, waits for no other if it is there,
-- the completion succeeds, the message is gone, the keep-alive task is stopped and the table stays
-- consistent.
pub sleep_ends :
    (from_str : String → Option ℕ) (fuel : ℕ) (job : CurrentJob) (text : String) (n : ℕ)
    (db : Database)
    → job.payload_json ≡ some text
    → from_str text ≡ some n
    → n ≤ fuel
    → IsConsistent db.messages
    → job.id ≢ uuid_nil
    → IsHead job.id db
    → (calls : List Call) × (sleep from_str fuel job db ≡ ended calls (complete job db))
      × (calls ≡ countdown job.id n)
      × (time_slept calls ≡ n * second)
      × Completes job db
unfolding sleep
sleep_ends from_str fuel job text n db e₁ e₂ h c nn head = (
  countdown job.id n,
  rw (json-some from_str job text n e₁ e₂, sleep) (rw (sleep_loop-countdown fuel job.id n h) refl),
  refl,
  time_slept-countdown job.id n,
  complete_head job db c nn head,
)
