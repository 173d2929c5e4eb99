-- ===== src/Spawn/Unordered.antt =====
-- Spawning a job that is not ordered.
use mathlib.Core.Bool.{false≢true}
use sqlxmq.Prelude.{
  ℕ, String, pos, ◌+ℤ◌, fits_int, as_i32, ◌+◌, ◌≡◌, refl, sym, ◌∙◌, inl, false, true, List, [], ◌∷◌,
  Option, none, some, ◌==◌, ==_iff, any, any-false, none_of_any, not-none-some, arith, ok,
}
use sqlxmq.Store.{Message, Payload, Database, conflicts}
use sqlxmq.Store.Insert.{insert_payloads, message_row, after_of}
use sqlxmq.Store.Consistent.{IsConsistent, has_dangling-IsConsistent}
use sqlxmq.Store.Consistent.Insert.{Fits, new-IsConsistent}
use sqlxmq.Spawn.{JobBuilder, bind_message, spawn}
use sqlxmq.Spawn.Effect.{with_message, spawn_intro}

-- The row of the job, whose commit interval is part of its time.
abbrev pub unordered_row : ℕ → JobBuilder → Message
unordered_row now b = record {
  id = b.id;
  created_at = now;
  attempt_at = some (now + b.delay + (elim b.commit_interval [ none ↦ 0 | some c ↦ c ]));
  attempts = as_i32 b.retries +ℤ pos 1;
  retry_backoff = b.retry_backoff;
  channel_name = b.channel_name;
  channel_args = b.channel_args;
  commit_interval = b.commit_interval;
  after_message_id = none;
}

message_row-unordered :
    (now : ℕ) (b : JobBuilder) (ms : List Message)
    → b.ordered ≡ false
    → fits_int (as_i32 b.retries +ℤ pos 1) ≡ true
    → message_row now (bind_message b ∷ []) ms (bind_message b) ≡ ok (unordered_row now b)
unfolding message_row after_of bind_message
message_row-unordered now b ms o f = ground arith

unordered-Fits :
    (now : ℕ) (b : JobBuilder) (ms : List Message)
    → any (λ (m : Message). m.id == b.id) ms ≡ false
    → Fits ms (unordered_row now b)
unordered-Fits now b ms h = record {
  fresh = λ n k z.
      false≢true
        (sym (none_of_any (λ (m : Message). m.id == b.id) ms n h k) ∙ (==_iff n.id b.id).1 z);
  free = λ n i k same e. absurd (not-none-some e);
  follows = inl refl;
}

-- Where the id is fresh, the retries fit and the payload goes in, it succeeds.
pub spawn-unordered :
    (to_jsonb : String → Option String) (now : ℕ) (b : JobBuilder) (db : Database)
    (ps : List Payload)
    → IsConsistent db.messages
    → b.ordered ≡ false
    → fits_int (as_i32 b.retries +ℤ pos 1) ≡ true
    → any (λ (m : Message). m.id == b.id) db.messages ≡ false
    → insert_payloads to_jsonb (bind_message b ∷ []) db.payloads ≡ ok ps
    → (spawn to_jsonb now b db ≡ ok (with_message b db (unordered_row now b) ps, b.id))
      × IsConsistent (unordered_row now b ∷ db.messages)
spawn-unordered to_jsonb now b db ps c o f fresh payload =
    let c' =
      new-IsConsistent db.messages (unordered_row now b) c
        (unordered-Fits now b db.messages fresh) in
    (
      spawn_intro to_jsonb now b db (unordered_row now b) ps (record {
        payload = payload;
        row = message_row-unordered now b db.messages o f;
        fresh = fresh;
        free = any-false (conflicts (unordered_row now b)) db.messages (λ m k. refl);
        linked = has_dangling-IsConsistent c';
      }),
      c',
    )
