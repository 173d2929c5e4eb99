-- ===== src/Scenarios/Spawned.antt =====
-- The job that a test with retries spawns.
use sqlxmq.Prelude.{
  ℕ, suc, String, pos, ◌+ℤ◌, as_i32, fits_int, any, ==_iff, ◌<◌, ◌≡◌, ◌≢◌, refl, true, false, List,
  [], ◌∷◌, Option, none, some, ◌==◌, arith, ok,
}
use sqlxmq.Store.{Message, Payload, Database, uuid_nil}
use sqlxmq.Store.Insert.{insert_payloads, insert_payload, cast_json}
use sqlxmq.Store.Consistent.{IsConsistent}
use sqlxmq.Spawn.{JobBuilder, new, bind_message}
use sqlxmq.Spawn.Unordered.{unordered_row, spawn-unordered}
use sqlxmq.Spawn.Effect.{with_message}
use sqlxmq.Scenarios.Cases.{spawn_all}
use sqlxmq.Scenarios.{test_job_runner}
use sqlxmq.Scenarios.Single.{alone}
use sqlxmq.Scenarios.Rounds.{at_rest}
use sqlxmq.Scenarios.Attempts.{waiting}

-- The builder of a test with retries, and the payload that it leaves.
abbrev pub builder_of : ℕ → ℕ → ℕ → Option String → JobBuilder
builder_of drawn retries backoff text = record (new drawn "foo") {
  retries = retries;
  retry_backoff = backoff;
  payload_json = text;
}

abbrev pub payload_of : ℕ → Option String → Payload
payload_of drawn json = record {
  id = drawn;
  name = "foo";
  payload_json = json;
  payload_bytes = none;
}

attempts_of : (retries : ℕ) → retries < 2147483647 → (as_i32 retries +ℤ pos 1) ≡ pos (suc retries)
unfolding as_i32 ◌+ℤ◌
attempts_of retries h = ground arith

row-waiting :
    (drawn retries backoff now : ℕ) (text : Option String)
    → retries < 2147483647
    → unordered_row now (builder_of drawn retries backoff text)
      ≡ waiting
          (unordered_row now (builder_of drawn retries backoff text))
          (suc retries)
          now
          backoff
unfolding new
row-waiting drawn retries backoff now text h = rw (attempts_of retries h) (ground arith)

insert_payloads-builder_of :
    (to_jsonb : String → Option String) (drawn retries backoff : ℕ) (text json : Option String)
    → cast_json to_jsonb text ≡ ok json
    → insert_payloads to_jsonb (bind_message (builder_of drawn retries backoff text) ∷ []) []
      ≡ ok (payload_of drawn json ∷ [])
unfolding insert_payloads insert_payload bind_message new
insert_payloads-builder_of to_jsonb drawn retries backoff text json e = rw e refl

fits : (retries : ℕ) → retries < 2147483647 → fits_int (as_i32 retries +ℤ pos 1) ≡ true
fits retries h = rw (attempts_of retries h) (ground arith)

fresh :
    (drawn : ℕ) (z : Message)
    → z.id ≡ uuid_nil
    → drawn ≢ uuid_nil
    → any (λ (m : Message). m.id == drawn) (z ∷ []) ≡ false
fresh drawn z e h = rw e (ground (arith, ==_iff uuid_nil drawn))

-- The job that the test spawns where the nil message is alone.
pub spawn_all-builder_of :
    (to_jsonb : String → Option String) (drawn retries backoff now : ℕ) (text json : Option String)
    (z : Message) (db : Database)
    → cast_json to_jsonb text ≡ ok json
    → IsConsistent (z ∷ [])
    → z.id ≡ uuid_nil
    → drawn ≢ uuid_nil
    → retries < 2147483647
    → db.messages ≡ z ∷ []
    → db.payloads ≡ []
    → let b = builder_of drawn retries backoff text in
      (sent : List String) × (spawn_all to_jsonb ((now, b) ∷ []) (test_job_runner db)
        ≡ some (
            at_rest
              (alone z
                (waiting (unordered_row now b) (suc retries) now backoff)
                (payload_of drawn json)
                sent)
              false
              0
              []))
unfolding spawn_all test_job_runner new
spawn_all-builder_of to_jsonb drawn retries backoff now text json z db e' c e nn h at none_yet =
    let b = builder_of drawn retries backoff text in
    let (spawned, _) =
      spawn-unordered to_jsonb now b (record db { messages = z ∷ []; payloads = [] })
        (payload_of drawn json ∷ []) c refl (fits retries h) (fresh drawn z e nn)
        (insert_payloads-builder_of to_jsonb drawn retries backoff text json e') in
    let start = record db { messages = z ∷ []; payloads = [] } in
    (
      (with_message b start (unordered_row now b) (payload_of drawn json ∷ [])).notified,
      rw (at, none_yet) (rw spawned (rw (row-waiting drawn retries backoff now text h) refl)),
    )
