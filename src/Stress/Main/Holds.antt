-- ===== src/Stress/Main/Holds.antt =====
-- The queue in a run of the stress program, and what each event makes of it.
use mathlib.Core.Bool.{false≢true}
use sqlxmq.Prelude.{
  ℕ, String, ◌≡◌, ◌≢◌, refl, sym, ap, ◌∙◌, subst, ◌⊎◌, inl, inr, false, List, ◌∷◌, Option, some,
  ◌==◌, ==_iff, All, All-map, Memᴰ, Pairwise, none_of_any,
}
use sqlxmq.Store.{Message, Database, uuid_nil, uuid_exists}
use sqlxmq.Store.Consistent.{IsConsistent}
use sqlxmq.Store.Consistent.Update.{Updated, Updated-new, Updated-IsConsistent}
use sqlxmq.Macros.Static.{Scope}
use sqlxmq.Stress.{Start, start_job}
use sqlxmq.Stress.Jobs.{IsFresh, IsEncoded, IsFresh-next, start_job-ok, row, All-both}
use sqlxmq.Stress.Measured.{fresh-ne_nil}
use sqlxmq.Stress.Main.Tables.{KeepIds-Updated, IsFresh-same, Updates}
use sqlxmq.Stress.Main.Runs.{Apart}

-- The job of a start is in the queue, and waits for no message.
pub record Waits (ms : List Message) (s : Start) : Type 0 where
  pub message : Message
  pub there : Memᴰ message ms
  pub same_id : message.id ≡ s.drawn
  pub free : uuid_exists message.after_message_id ≡ false
  pub not_nil : s.drawn ≢ uuid_nil

-- The queue holds the jobs of `live`, and no more; the ids of `todo` are free.
pub record Holds (db : Database) (live todo : List Start) : Type 0 where
  pub consistent : IsConsistent db.messages
  pub waits : All (Waits db.messages) live
  pub apart : Pairwise Apart live
  pub only :
      (m : Message)
      → Memᴰ m db.messages
      → (m.id ≡ uuid_nil) ⊎ ((s : Start) × Memᴰ s live × (s.drawn ≡ m.id))
  pub fresh : All (IsFresh db) todo
  pub apart_todo : Pairwise Apart todo

Waits-Updated : {ms ms' : List Message} {s : Start} → Updated ms ms' → Waits ms s → Waits ms' s
Waits-Updated u w =
    let (m, k, l) = Updated-new w.message u w.there in
    record {
      message = m;
      there = k;
      same_id = l.same_id ∙ w.same_id;
      free = subst (λ a. uuid_exists a ≡ false) (sym l.same_after) w.free;
      not_nil = w.not_nil;
    }

pub Holds-Updates :
    {live todo : List Start} (db db' : Database)
    → Updates db db'
    → Holds db live todo
    → Holds db' live todo
Holds-Updates {live} {todo} db db' (u, e) h = record {
  consistent = Updated-IsConsistent u h.consistent;
  waits = All-map live (λ s w. Waits-Updated u w) h.waits;
  apart = h.apart;
  only = λ m k.
      let (b, kb, same) = KeepIds-Updated u m k in
      subst (λ i. (i ≡ uuid_nil) ⊎ ((s : Start) × Memᴰ s live × (s.drawn ≡ i))) (sym same)
        (h.only b kb);
  fresh = All-map todo (λ s f. IsFresh-same db db' s (KeepIds-Updated u) e f) h.fresh;
  apart_todo = h.apart_todo;
}

module _ {F C E R : Type 0} (sc : Scope F C E R) (show : ℕ → String) (to_json : ℕ → Option String)
    (to_jsonb : String → Option String) where
  pub Holds-start :
      {live todo : List Start} (s : Start) (db : Database)
      → IsEncoded sc show to_json to_jsonb s
      → Holds db live (s ∷ todo)
      → (db' : Database) × (start_job sc show to_json to_jsonb s db ≡ some db')
        × Holds db' (s ∷ live) todo
  Holds-start {live} {todo} s db (text, json, e₁, e₂) h =
      let (db', p, q, r, c) =
        start_job-ok sc show to_json to_jsonb s text json db h.consistent h.fresh.0 e₁ e₂ in
      (
        db',
        p,
        record {
          consistent = subst IsConsistent (sym q) c;
          waits = (
            record {
              message = row sc show to_json to_jsonb s;
              there = subst (Memᴰ _) (sym q) (Memᴰ.head refl);
              same_id = refl;
              free = refl;
              not_nil = fresh-ne_nil db s h.consistent h.fresh.0;
            },
            All-map live (λ t w. Waits-more q w) h.waits,
          );
          apart = (All-map live (λ t w z. new_id h.fresh.0 w z) h.waits, h.apart);
          only = λ m k. only_new m h.only (subst (Memᴰ m) q k);
          fresh =
              All-both todo h.apart_todo.0 h.fresh.1
                (λ t ne f. IsFresh-next sc show to_json to_jsonb s t json db db' q r ne f);
          apart_todo = h.apart_todo.1;
        },
      )
    where
      Waits-more :
          {m : Message} {ms ms' : List Message} {t : Start}
          → ms' ≡ m ∷ ms
          → Waits ms t
          → Waits ms' t
      Waits-more e w = record {
        message = w.message;
        there = subst (Memᴰ w.message) (sym e) (Memᴰ.tail w.there);
        same_id = w.same_id;
        free = w.free;
        not_nil = w.not_nil;
      }

      new_id : {t : Start} → IsFresh db s → Waits db.messages t → s.drawn ≢ t.drawn
      new_id f w z = false≢true (
          sym (
            none_of_any (λ (m : Message). m.id == s.drawn) db.messages w.message f.no_message
              w.there)
          ∙ (==_iff w.message.id s.drawn).1 (w.same_id ∙ sym z))

      only_new :
          (m : Message)
          → ((b : Message)
              → Memᴰ b db.messages
              → (b.id ≡ uuid_nil) ⊎ ((t : Start) × Memᴰ t live × (t.drawn ≡ b.id)))
          → Memᴰ m (row sc show to_json to_jsonb s ∷ db.messages)
          → (m.id ≡ uuid_nil) ⊎ ((t : Start) × Memᴰ t (s ∷ live) × (t.drawn ≡ m.id))
      only_new m old (Memᴰ.head e) = inr (s, Memᴰ.head refl, sym (ap (λ (x : Message). x.id) e))
      only_new m old (Memᴰ.tail k) = elim (old m k) [
        | inl z ↦ inl z
        | inr (t, kt, e) ↦ inr (t, Memᴰ.tail kt, e)
      ]
