-- ===== src/Scenarios/Saved.antt =====
-- The end of the test `it_can_checkpoint_jobs`.
use sqlxmq.Prelude.{
  ℕ, zero, suc, String, ◌<◌, ◌≡◌, ◌≢◌, refl, ap, ◌∙◌, Bool, false, List, [], ◌∷◌, Option, some,
  arith, ok,
}
use sqlxmq.Store.{Database, uuid_nil}
use sqlxmq.Store.Insert.{cast_json}
use sqlxmq.Store.Consistent.{IsConsistent}
use sqlxmq.Store.Poll.Select.{Channel, Keeps}
use sqlxmq.Spawn.{new, set_retries, set_retry_backoff, set_json}
use sqlxmq.Spawn.Unordered.{unordered_row}
use sqlxmq.Scenarios.Attempts.{runs}
use sqlxmq.Scenarios.Spawned.{builder_of, spawn_all-builder_of}
use sqlxmq.Scenarios.Saving.{IsState}
use sqlxmq.Scenarios.Checkpoint.{counted, counted-before}
use sqlxmq.Scenarios.Start.{test_pool-ok}
use sqlxmq.Scenarios.Cases.{it_can_checkpoint_jobs}

cast_json-some :
    (to_jsonb : String → Option String) (text json : String)
    → to_jsonb text ≡ some json
    → cast_json to_jsonb (some text) ≡ ok (some json)
unfolding cast_json
cast_json-some to_jsonb text json e = rw (e, cast_json) refl

-- Whatever consistent tables the test finds, with one retry or more, serde_json's texts of its states
-- read back, and whenever the rounds of its runner are: the job runs at the first round after it was
-- spawned and saves its state, runs again at the first round a backoff after that, and is then
-- completed, so no later round runs it.
pub it_can_checkpoint_jobs_lem :
    (shuffle : List Channel → List Channel) (to_jsonb : String → Option String)
    (from_str : String → Option Bool) (to_string : Bool → Option String) (before after : String)
    (drawn retries backoff now : ℕ) (times : List ℕ) (db : Database)
    → Keeps shuffle
    → ((c : Channel) → shuffle (c ∷ []) ≡ c ∷ [])
    → IsState to_jsonb from_str to_string before after
    → IsConsistent db.messages
    → drawn ≢ uuid_nil
    → 0 < retries
    → retries < 2147483647
    → (it_can_checkpoint_jobs shuffle to_jsonb from_str to_string drawn retries backoff now times db
        ≡ some (runs 2 now backoff times))
unfolding it_can_checkpoint_jobs new set_retries set_retry_backoff set_json counted
it_can_checkpoint_jobs_lem shuffle to_jsonb from_str to_string before after drawn zero backoff now
      times db keeps only state c nn one h =
    absurd (omega arith)
it_can_checkpoint_jobs_lem shuffle to_jsonb from_str to_string before after drawn (suc retries)
      backoff now times db keeps only state c nn one h =
    let (z, e, is_nil, first, c') = test_pool-ok db c in
    let (text, w, j) = state.spawned in
    let start = record db { messages = z ∷ []; payloads = [] } in
    let b = builder_of drawn (suc retries) backoff (some text) in
    let (sent, spawned) =
      spawn_all-builder_of to_jsonb drawn (suc retries) backoff now (some text) (some before) z
        start (cast_json-some to_jsonb text before j) c' is_nil nn h refl refl in
    rw e (
      rw w (
        rw spawned (
          ap (λ (n : ℕ). some n)
            (counted-before shuffle keeps only to_jsonb from_str to_string before after state z
                (unordered_row now b) is_nil first nn refl refl sent false times retries now backoff
                0 (omega arith)
              ∙ omega arith))))
