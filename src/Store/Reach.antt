-- ===== src/Store/Reach.antt =====
-- The states that the queue's calls lead to from an empty queue, in any order and at any times.
pub mod Stored
use sqlxmq.Prelude.{
  ℕ, String, ℤ, pos, ◌≡◌, refl, sym, ap, ◌∙◌, subst, false, not, List, [], ◌∷◌, Option, none, some,
  elem, Memᴰ, ok, >>=-eq-ok, ok_injective, not-none-some, guard,
}
use sqlxmq.Store.{Message, Database, uuid_nil, after_fkey, foreign_key_violation, has_dangling}
use sqlxmq.Store.Insert.{insert, insert_messages, insert_payloads}
use sqlxmq.Store.Remove.{delete, delete_where, clear, clear_all}
use sqlxmq.Store.Schedule.{commit, keep_alive, checkpoint}
use sqlxmq.Store.Poll.{PolledMessage, claim}
use sqlxmq.Store.Poll.Concurrent.{claim_inversion}
use sqlxmq.Store.Consistent.{IsConsistent}
use sqlxmq.Store.Consistent.Insert.{insert_alone}
use sqlxmq.Store.Consistent.Update.{
  Updated-IsConsistent, Claims-Updated, commit-Updated, keep_alive-Updated, checkpoint-Updated,
}
use sqlxmq.Store.Consistent.Delete.{delete_where-IsConsistent}
use sqlxmq.Store.Consistent.Clear.{clear_lem, clear_all_lem}
use sqlxmq.Spawn.{JobBuilder, spawn, bind_message}

-- The nil message that the setup migration inserts.
abbrev pub nil_message : ℕ → Message
nil_message now = record {
  id = uuid_nil;
  created_at = now;
  attempt_at = some now;
  attempts = pos 5;
  retry_backoff = 1000000;
  channel_name = "";
  channel_args = "";
  commit_interval = none;
  after_message_id = none;
}

abbrev pub empty_queue : ℕ → Database
empty_queue now = record { messages = nil_message now ∷ []; payloads = []; notified = [] }

module _ (to_jsonb : String → Option String) where
  -- A call that succeeds. A poll's UPDATE may come with any ids: those of an older snapshot, too.
  pub data Step (db db' : Database) : Type 0 where
    spawned :
        (now : ℕ) (b : JobBuilder) (id : ℕ) → spawn to_jsonb now b db ≡ ok (db', id) → Step db db'
    committed : (ids : List ℕ) → commit ids db ≡ ok db' → Step db db'
    kept_alive :
        (now : ℕ) (ids : List ℕ) (duration : ℕ)
        → keep_alive now ids duration db ≡ ok db'
        → Step db db'
    checkpointed :
        (now id duration : ℕ) (json : Option String) (bytes : Option (List ℕ)) (extra : Option ℤ)
        → checkpoint to_jsonb now id duration json bytes extra db ≡ ok db'
        → Step db db'
    polled :
        (now : ℕ) (names : Option (List String)) (ids : List ℕ) (rows : List PolledMessage)
        → claim now names ids db ≡ ok (db', rows)
        → Step db db'
    deleted : (ids : List ℕ) → elem uuid_nil ids ≡ false → delete ids db ≡ ok db' → Step db db'
    cleared : (names : List String) → clear names db ≡ ok db' → Step db db'
    cleared_all : clear_all db ≡ ok db' → Step db db'

  pub data Reach (start : Database) : Database → Type 0 where
    here : Reach start start
    next : {db db' : Database} → Reach start db → Step db db' → Reach start db'

  insert-IsConsistent :
      (now : ℕ) (b : JobBuilder) (db db' : Database)
      → IsConsistent db.messages
      → insert to_jsonb now (bind_message b ∷ []) db ≡ ok db'
      → IsConsistent db'.messages
  unfolding insert
  insert-IsConsistent now b db db' c e =
      let new = bind_message b in
      let (ps, e₁, e₂) = >>=-eq-ok (insert_payloads to_jsonb (new ∷ []) db.payloads) _ e in
      let (ms, e₃, e₄) =
        >>=-eq-ok (insert_messages now (new ∷ []) db.messages (new ∷ []) db.messages) _ e₂ in
      let (_, e₅, e₆) =
        >>=-eq-ok (guard (not (has_dangling ms)) (foreign_key_violation after_fkey)) _ e₄ in
      subst (λ (d : Database). IsConsistent d.messages) (ok_injective e₆)
        (insert_alone now new db.messages ms c e₃).0

  spawn-IsConsistent :
      (now : ℕ) (b : JobBuilder) (id : ℕ) (db db' : Database)
      → IsConsistent db.messages
      → spawn to_jsonb now b db ≡ ok (db', id)
      → IsConsistent db'.messages
  unfolding spawn
  spawn-IsConsistent now b id db db' c e =
      let (d, e₁, e₂) = >>=-eq-ok (insert to_jsonb now (bind_message b ∷ []) db) _ e in
      subst (λ (p : Database × ℕ). IsConsistent p.0.messages) (ok_injective e₂)
        (insert-IsConsistent now b db d c e₁)

  delete-IsConsistent :
      (ids : List ℕ) (db db' : Database)
      → IsConsistent db.messages
      → elem uuid_nil ids ≡ false
      → delete ids db ≡ ok db'
      → IsConsistent db'.messages
  unfolding delete
  delete-IsConsistent ids db db' c h e =
      let (ms, e₁, e₂) = >>=-eq-ok (delete_where (λ m. elem m.id ids) db.messages) _ e in
      subst (λ (d : Database). IsConsistent d.messages) (ok_injective e₂)
        (delete_where-IsConsistent _ db.messages c ms
          (λ m z. subst (λ i. elem i ids ≡ false) (sym z) h) e₁)

  same_database :
      {d db' : Database} → IsConsistent d.messages → ok d ≡ ok db' → IsConsistent db'.messages
  same_database c e = subst (λ (d : Database). IsConsistent d.messages) (ok_injective e) c

  -- Every call keeps the table of messages consistent.
  pub Step-IsConsistent :
      {db db' : Database} → Step db db' → IsConsistent db.messages → IsConsistent db'.messages
  Step-IsConsistent {db} {db'} (spawned now b id e) c = spawn-IsConsistent now b id db db' c e
  Step-IsConsistent {db} {db'} (committed ids e) c =
      Updated-IsConsistent (commit-Updated ids db db' e).0 c
  Step-IsConsistent {db} {db'} (kept_alive now ids duration e) c =
      Updated-IsConsistent (keep_alive-Updated now ids duration db db' e).0 c
  Step-IsConsistent {db} {db'} (checkpointed now id duration json bytes extra e) c =
      Updated-IsConsistent (checkpoint-Updated to_jsonb now id duration json bytes extra db db' e).0
        c
  Step-IsConsistent {db} {db'} (polled now names ids rows e) c =
      Updated-IsConsistent (Claims-Updated (claim_inversion now names ids db db' rows e).1) c
  Step-IsConsistent {db} {db'} (deleted ids h e) c = delete-IsConsistent ids db db' c h e
  Step-IsConsistent {db} (cleared names e) c =
      let (p, q) = clear_lem names db c in same_database q (sym p ∙ e)
  Step-IsConsistent {db} (cleared_all e) c =
      let (p, q, _) = clear_all_lem db c in same_database q (sym p ∙ e)

  empty_queue-IsConsistent : (now : ℕ) → IsConsistent (empty_queue now).messages
  empty_queue-IsConsistent now = record {
    distinct = (tt, tt);
    unique =
        λ a b ka kb ne s i p q. ne (ap (λ (m : Message). m.id) (alone a ka ∙ sym (alone b kb)));
    chained = λ a b ka kb p nn. absurd (nn (ap (λ (m : Message). m.id) (alone a ka)));
    linked = λ a i ka p.
        absurd (not-none-some (sym (ap (λ (m : Message). m.after_message_id) (alone a ka)) ∙ p));
    has_nil = (nil_message now, Memᴰ.head refl, refl, refl);
  }
    where
      alone : (a : Message) → Memᴰ a (nil_message now ∷ []) → a ≡ nil_message now
      alone a (Memᴰ.head e) = e
      alone a (Memᴰ.tail k) = elim k [ ]

  -- However the calls of spawning, polling, committing, keeping alive, checkpointing, deleting and
  -- clearing follow one another, the table of messages stays consistent: one message to an id, no
  -- two messages of a channel in one place of its order, and each ordered message behind the nil
  -- message or behind an ordered message of its own channel.
  pub Reach-IsConsistent :
      {start : ℕ} {db : Database} → Reach (empty_queue start) db → IsConsistent db.messages
  Reach-IsConsistent {start} here = empty_queue-IsConsistent start
  Reach-IsConsistent (next r s) = Step-IsConsistent s (Reach-IsConsistent r)
