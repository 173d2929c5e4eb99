-- ===== src/Scenarios/Retries.antt =====
-- The rounds of a runner whose jobs end without being completed.
use sqlxmq.Prelude.{
  ℕ, zero, suc, String, ◌⊎◌, ◌+◌, ◌*◌, ◌≤◌, ◌<◌, ◌≡◌, ◌≢◌, refl, ap, ◌∙◌, Bool, List, [], ◌∷◌, none,
  leb, arith, inl, inr, Bool-cases,
}
use sqlxmq.Store.{Message, Payload, Database, uuid_nil}
use sqlxmq.Store.Poll.Select.{Channel, Keeps}
use sqlxmq.Runner.{CurrentJob, drop_job, new_options}
use sqlxmq.Scenarios.{TestRun, pause, run_round, run_task, returns}
use sqlxmq.Scenarios.Single.{alone}
use sqlxmq.Scenarios.Rounds.{at_rest, with_one, run_round-idle, run_round-alone}
use sqlxmq.Scenarios.Attempts.{runs, waiting, claim_message-waiting, not_ready, nil_not_ready}

run_task-returns :
    (now : ℕ) (job : CurrentJob) (db : Database) (permit : Bool) (counter : ℕ)
    → run_task returns now job (record (at_rest db permit counter []) { runner = with_one permit })
      ≡ at_rest db permit (counter + 1) []
unfolding run_task drop_job new_options
run_task-returns now job db permit counter = refl

module _ (shuffle : List Channel → List Channel) (keeps : Keeps shuffle)
    (only : (c : Channel) → shuffle (c ∷ []) ≡ c ∷ []) (z : Message) (is_nil : z.id ≡ uuid_nil)
    (m : Message) (p : Payload) (sent : List String) (permit : Bool) (named : m.id ≢ uuid_nil)
    (free : m.after_message_id ≡ none) (committed : m.commit_interval ≡ none)
    (owned : p.id ≡ m.id) where
  abbrev resting_with : ℕ → ℕ → ℕ → ℕ → TestRun
  resting_with n due b counter = at_rest (alone z (waiting m n due b) p sent) permit counter []

  run_round-early :
      (now n due b counter : ℕ)
      → (n ≡ 0) ⊎ (now < due)
      → run_round shuffle returns now (resting_with n due b counter) ≡ resting_with n due b counter
  run_round-early now n due b counter h =
      run_round-idle shuffle keeps returns now permit counter [] _
        (not_ready m n due b now h, (nil_not_ready now z is_nil, tt))

  run_round-due :
      (now n due b counter : ℕ)
      → n < 2147483647
      → due ≤ now
      → run_round shuffle returns now (resting_with (suc n) due b counter)
        ≡ resting_with n (now + b) (b * 2) (counter + 1)
  run_round-due now n due b counter small h =
      run_round-alone shuffle keeps returns now permit counter [] z (waiting m (suc n) due b)
        (waiting m n (now + b) (b * 2)) p sent only is_nil named (rw free refl)
        (due, ground arith, h) (claim_message-waiting m n due b now small) owned committed
      ∙ run_task-returns now _ _ permit counter

  pub pause-returns :
      (times : List ℕ) (n due b counter : ℕ)
      → n ≤ 2147483647
      → (pause shuffle returns times (resting_with n due b counter)).counter
        ≡ counter + runs n due b times
  unfolding pause runs
  pause-returns [] zero due b counter h = omega arith
  pause-returns [] (suc n) due b counter h = omega arith
  pause-returns (now ∷ times) zero due b counter h =
      ap (λ (s : TestRun). (pause shuffle returns times s).counter)
        (run_round-early now zero due b counter (inl refl))
      ∙ pause-returns times zero due b counter h
  pause-returns (now ∷ times) (suc n) due b counter h = elim (Bool-cases (leb due now)) [
    | inl early ↦
        ap (λ (s : TestRun). (pause shuffle returns times s).counter)
          (run_round-due now n due b counter (omega arith) (ground arith))
        ∙ pause-returns times n (now + b) (b * 2) (counter + 1) (omega arith)
        ∙ rw early (omega arith)
    | inr late ↦
        ap (λ (s : TestRun). (pause shuffle returns times s).counter)
          (run_round-early now (suc n) due b counter (inr (ground arith)))
        ∙ pause-returns times (suc n) due b counter h
        ∙ rw late refl
  ]
