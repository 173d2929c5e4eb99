-- ===== src/Stress/Jobs.antt =====
-- The jobs that the stress program spawns.
use mathlib.Core.Bool.{false≢true}
use sqlxmq.Prelude.{
  ℕ, String, pos, ◌+ℤ◌, as_i32, ◌+◌, ◌/◌, ◌≡◌, ◌≢◌, refl, sym, ◌∙◌, subst, inl, false, List, [],
  ◌∷◌, Option, none, some, ◌==◌, ==_iff, any, any-false, All, Memᴰ, Pairwise, none_of_any,
  not-none-some, ok, arith,
}
use sqlxmq.Store.{Message, Payload, Database, conflicts}
use sqlxmq.Store.Insert.{insert_payloads, insert_payload, cast_json, message_row, after_of}
use sqlxmq.Store.Consistent.{IsConsistent, has_dangling-IsConsistent}
use sqlxmq.Store.Consistent.Insert.{Fits, new-IsConsistent}
use sqlxmq.Spawn.{JobBuilder, new, second, bind_message}
use sqlxmq.Spawn.Effect.{with_message, spawn_intro}
use sqlxmq.Macros.Expand.{chain_of}
use sqlxmq.Macros.Static.{Scope, named_job, set_all}
use sqlxmq.Stress.{Start, seed_channel, example_job, start_builder, start_job, schedule_tasks}

pub All-both {ℓ} :
    {A : Type ℓ} {P Q S : A → Type 0} (xs : List A)
    → All P xs
    → All Q xs
    → ((x : A) → P x → Q x → S x)
    → All S xs
All-both [] p q f = tt
All-both (x ∷ xs) p q f = (f x p.0 q.0, All-both xs p.1 q.1 f)

-- Neither table has the id that was drawn.
pub record IsFresh (db : Database) (s : Start) : Type 0 where
  pub no_message : any (λ (m : Message). m.id == s.drawn) db.messages ≡ false
  pub no_payload : any (λ (p : Payload). p.id == s.drawn) db.payloads ≡ false

-- An unordered message of the job, in the channel of its seed.
abbrev pub IsThere : List Message → Start → Type 0
IsThere ms s =
    (m : Message) × Memᴰ m ms
    × (m.id ≡ s.drawn)
    × (m.channel_name ≡ seed_channel s.seed)
    × (m.after_message_id ≡ none)

module _ {F C E R : Type 0} (sc : Scope F C E R) (show : ℕ → String) (to_json : ℕ → Option String)
    (to_jsonb : String → Option String) where
  -- The builder as `spawn` gets it.
  abbrev built : Start → String → JobBuilder
  built s text = record (new s.drawn (example_job sc).name) {
    channel_name = seed_channel s.seed;
    channel_args = show (s.seed / 32);
    payload_json = some text;
  }

  start_builder-some :
      (s : Start) (text : String)
      → to_json s.elapsed ≡ some text
      → start_builder sc show to_json to_jsonb s ≡ some (built s text)
  unfolding start_builder new named_job set_all chain_of
  start_builder-some s text e = rw e refl

  -- The row of the job.
  abbrev pub row : Start → Message
  row s = record {
    id = s.drawn;
    created_at = s.now;
    attempt_at = some (s.now + 0 + 0);
    attempts = pos 5;
    retry_backoff = second;
    channel_name = seed_channel s.seed;
    channel_args = show (s.seed / 32);
    commit_interval = none;
    after_message_id = none;
  }

  message_row-built :
      (s : Start) (text : String) (ms : List Message)
      → message_row s.now (bind_message (built s text) ∷ []) ms (bind_message (built s text))
        ≡ ok (row s)
  unfolding message_row after_of bind_message new as_i32 ◌+ℤ◌
  message_row-built s text ms = refl

  abbrev stored : Start → String → List Payload → List Payload
  stored s json ps =
      record {
        id = s.drawn;
        name = (example_job sc).name;
        payload_json = some json;
        payload_bytes = none;
      }
      ∷ ps

  insert_payloads-built :
      (s : Start) (text json : String) (ps : List Payload)
      → to_jsonb text ≡ some json
      → any (λ (p : Payload). p.id == s.drawn) ps ≡ false
      → insert_payloads to_jsonb (bind_message (built s text) ∷ []) ps ≡ ok (stored s json ps)
  unfolding insert_payloads insert_payload cast_json bind_message new
  insert_payloads-built s text json ps e h = rw e (rw h refl)

  row-Fits :
      (s : Start) (ms : List Message)
      → any (λ (m : Message). m.id == s.drawn) ms ≡ false
      → Fits ms (row s)
  row-Fits s ms h = record {
    fresh = λ b k z.
        false≢true (
          sym (none_of_any (λ (m : Message). m.id == s.drawn) ms b h k)
          ∙ (==_iff b.id s.drawn).1 z);
    free = λ b i k same e. absurd (not-none-some e);
    follows = inl refl;
  }

  pub start_job-ok :
      (s : Start) (text json : String) (db : Database)
      → IsConsistent db.messages
      → IsFresh db s
      → to_json s.elapsed ≡ some text
      → to_jsonb text ≡ some json
      → (db' : Database) × (start_job sc show to_json to_jsonb s db ≡ some db')
        × (db'.messages ≡ row s ∷ db.messages)
        × (db'.payloads ≡ stored s json db.payloads)
        × IsConsistent (row s ∷ db.messages)
  unfolding start_job
  start_job-ok s text json db c f e₁ e₂ =
      let c' = new-IsConsistent db.messages (row s) c (row-Fits s db.messages f.no_message) in
      let spawned =
        spawn_intro to_jsonb s.now (built s text) db (row s) (stored s json db.payloads) (record {
          payload = insert_payloads-built s text json db.payloads e₂ f.no_payload;
          row = message_row-built s text db.messages;
          fresh = f.no_message;
          free = any-false (conflicts (row s)) db.messages (λ m k. refl);
          linked = has_dangling-IsConsistent c';
        }) in
      (
        with_message (built s text) db (row s) (stored s json db.payloads),
        rw (start_builder-some s text e₁, start_job) (rw spawned refl),
        refl,
        refl,
        c',
      )

  -- The payload's text is made by serde_json and taken by the database.
  abbrev pub IsEncoded : Start → Type 0
  IsEncoded s =
      (text : String) × (json : String) × (to_json s.elapsed ≡ some text)
      × (to_jsonb text ≡ some json)

  pub IsFresh-next :
      (s t : Start) (json : String) (db db' : Database)
      → db'.messages ≡ row s ∷ db.messages
      → db'.payloads ≡ stored s json db.payloads
      → s.drawn ≢ t.drawn
      → IsFresh db t
      → IsFresh db' t
  IsFresh-next s t json db db' p q ne f =
      let other : (s.drawn == t.drawn) ≡ false = differs s.drawn t.drawn ne in
      record {
        no_message = rw p (rw (other, f.no_message) refl);
        no_payload = rw q (rw (other, f.no_payload) refl);
      }
    where
      differs : (i j : ℕ) → i ≢ j → (i == j) ≡ false
      differs i j ne = ground (arith, ==_iff i j)

  -- The program never aborts for a job that it fails to start: from a consistent table, calls of
  -- `start_job` with ids that are fresh and distinct, in any order, all succeed, where serde_json
  -- writes the payloads and the database reads them. Each leaves its message unordered in the
  -- channel of its seed, whatever channel the attribute says, and those that were there stay.
  pub schedule_tasks_lem :
      (starts : List Start) (db : Database)
      → IsConsistent db.messages
      → All (IsFresh db) starts
      → Pairwise (λ (s t : Start). s.drawn ≢ t.drawn) starts
      → All IsEncoded starts
      → (db' : Database) × (schedule_tasks sc show to_json to_jsonb starts db ≡ some db')
        × IsConsistent db'.messages
        × ((m : Message) → Memᴰ m db.messages → Memᴰ m db'.messages)
        × All (IsThere db'.messages) starts
  unfolding schedule_tasks
  schedule_tasks_lem [] db c f d e = (db, refl, c, (λ m k. k), tt)
  schedule_tasks_lem (s ∷ starts) db c f d e =
      let (text, json, e₁, e₂) = e.0 in
      let (db₁, p, q, r, c₁) = start_job-ok s text json db c f.0 e₁ e₂ in
      let fresh = All-both starts d.0 f.1 (λ t ne g. IsFresh-next s t json db db₁ q r ne g) in
      let (db₂, p₂, c₂, keeps, there) =
        schedule_tasks_lem starts db₁ (subst IsConsistent (sym q) c₁) fresh d.1 e.1 in
      (
        db₂,
        rw (p, schedule_tasks) p₂,
        c₂,
        (λ m k. keeps m (subst (Memᴰ m) (sym q) (Memᴰ.tail k))),
        (
          (row s, keeps (row s) (subst (Memᴰ (row s)) (sym q) (Memᴰ.head refl)), refl, refl, refl),
          there,
        ),
      )
