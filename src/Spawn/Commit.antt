-- ===== src/Spawn/Commit.antt =====
-- Two-phase commit: spawning with a commit interval, and committing.
use sqlxmq.Prelude.{
  ℕ, String, ◌+◌, ◌≡◌, refl, sym, Bool, true, false, ◌&&◌, List, [], ◌∷◌, Option, none, some, ◌==◌,
  any, any-false, none_of_any, ==_iff, elem, arith, Fallible, ok,
}
use sqlxmq.Store.{Message, Payload, Database, update_where}
use sqlxmq.Store.Insert.{insert_payloads, message_row, new_channels}
use sqlxmq.Store.Schedule.{commit_message, is_uncommitted}
use sqlxmq.Store.Schedule
use sqlxmq.Spawn.{JobBuilder, bind_message, spawn, commit, set_commit_interval}
use sqlxmq.Spawn.Effect.{with_message, Accepts, spawn_intro, spawn_inversion}

update_where_none :
    (test : Message → Bool) (set : Message → Fallible Message) (ms : List Message)
    → any test ms ≡ false
    → update_where test set ms ≡ ok ms
unfolding update_where
update_where_none test set [] e = refl
update_where_none test set (m ∷ ms) e =
    rw (update_where_none test set ms (ground arith)) (ground arith)

-- A row inserted with a commit interval, but for the interval.
abbrev committed : Message → ℕ → Message
committed r t = record r { attempt_at = some t; commit_interval = none }

module _ (to_jsonb : String → Option String) (now c : ℕ) (b : JobBuilder) (db : Database) where
  abbrev two_phase : JobBuilder
  two_phase = set_commit_interval (some c) b

  abbrev one_phase : JobBuilder
  one_phase = set_commit_interval none b

  row_one_phase :
      (r : Message)
      → message_row now (bind_message two_phase ∷ []) db.messages (bind_message two_phase) ≡ ok r
      → (message_row now (bind_message one_phase ∷ []) db.messages (bind_message one_phase)
          ≡ ok (committed r (now + b.delay)))
        × (commit_message r ≡ ok (committed r (now + b.delay)))
        × (is_uncommitted r ≡ true)
        × (r.id ≡ b.id)
  unfolding message_row bind_message set_commit_interval commit_message
  row_one_phase r e = ground arith

  -- Neither the id, the channel nor the order of the row changes.
  Accepts-one_phase :
      (r : Message) (ps : List Payload)
      → Accepts to_jsonb now two_phase db r ps
      → Accepts to_jsonb now one_phase db (committed r (now + b.delay)) ps
  unfolding bind_message set_commit_interval insert_payloads
  Accepts-one_phase r ps a = record {
    payload = a.payload;
    row = (row_one_phase r a.row).0;
    fresh = a.fresh;
    free = a.free;
    linked = a.linked;
  }

  others_stay :
      (r : Message)
      → r.id ≡ b.id
      → any (λ n. n.id == r.id) db.messages ≡ false
      → any (λ m. elem m.id (b.id ∷ []) && is_uncommitted m) db.messages ≡ false
  others_stay r p e =
      any-false _ db.messages
        λ m k. let other = none_of_any (λ n. n.id == r.id) db.messages m e k in ground arith

  commit-two_phase :
      (r : Message) (ps : List Payload)
      → Accepts to_jsonb now two_phase db r ps
      → commit (b.id ∷ []) (with_message two_phase db r ps)
        ≡ ok (with_message one_phase db (committed r (now + b.delay)) ps)
  unfolding commit Schedule.commit bind_message set_commit_interval new_channels
  commit-two_phase r ps a =
      let (_, done, open_still, same) = row_one_phase r a.row in
      rw (update_where_none _ commit_message db.messages (others_stay r same a.fresh))
        (rw (open_still, (==_iff b.id r.id).1 (sym same)) (rw done))

  -- A job spawned with a commit interval, and committed at any time before something else touches
  -- the queue, leaves the queue as the same job spawned without a commit interval; committing it
  -- does not fail.
  pub spawn-commit :
      (db₁ : Database) (id : ℕ)
      → spawn to_jsonb now (set_commit_interval (some c) b) db ≡ ok (db₁, id)
      → (db₂ : Database) × (commit (id ∷ []) db₁ ≡ ok db₂)
        × (spawn to_jsonb now (set_commit_interval none b) db ≡ ok (db₂, id))
  unfolding set_commit_interval
  spawn-commit db₁ id e =
      let (r, ps, a, p, q) = spawn_inversion to_jsonb now two_phase db db₁ id e in
      (
        with_message one_phase db (committed r (now + b.delay)) ps,
        rw (p, q) (commit-two_phase r ps a),
        rw q (
            spawn_intro to_jsonb now one_phase db (committed r (now + b.delay)) ps
              (Accepts-one_phase r ps a)),
      )
