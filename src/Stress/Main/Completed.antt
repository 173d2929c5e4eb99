-- ===== src/Stress/Main/Completed.antt =====
-- The queue in a run of the stress program after a job is completed.
use sqlxmq.Prelude.{
  ℕ, ◌≡◌, ◌≢◌, sym, ap, ◌∙◌, subst, ◌⊎◌, inl, inr, false, List, [], ◌∷◌, All-map, All-Memᴰ, Memᴰ,
  elem, ok,
}
use sqlxmq.Store.{Message, Database, uuid_nil, uuid_exists}
use sqlxmq.Store.Consistent.{IsConsistent, Distinct-eq}
use sqlxmq.Store.Consistent.Remove.{
  kept, kept-member, member-kept, relink-Kept, Kept, kept-IsConsistent,
}
use sqlxmq.Runner.{CurrentJob}
use sqlxmq.Store.Remove.{relink}
use sqlxmq.Runner.Job.{complete}
use sqlxmq.Runner.Job.Complete.{IsHead}
use sqlxmq.Stress.{Start}
use sqlxmq.Stress.Jobs.{All-both}
use sqlxmq.Stress.Main.Tables.{KeepIds, KeepIds-kept, IsFresh-fewer, complete_kept}
use sqlxmq.Stress.Main.Runs.{Taken, Taken-Memᴰ, Taken-split, Taken-All, Taken-Pairwise, Taken-apart}
use sqlxmq.Stress.Main.Holds.{Holds, Waits}

Kept-free :
    (id : ℕ) (b b' : Message)
    → Kept id b b'
    → uuid_exists b.after_message_id ≡ false
    → uuid_exists b'.after_message_id ≡ false
Kept-free id b b' v h = elim v.after [
  | inl (_, e) ↦ ap uuid_exists e
  | inr (_, e) ↦ ap uuid_exists e ∙ h
]

Waits-IsHead :
    (id : ℕ) (s : Start) (db : Database)
    → IsConsistent db.messages
    → id ≡ s.drawn
    → Waits db.messages s
    → IsHead id db
Waits-IsHead id s db c same w m k e =
    let here =
      Distinct-eq db.messages w.message m c.distinct w.there k (w.same_id ∙ sym same ∙ sym e) in
    subst (λ (x : Message). uuid_exists x.after_message_id ≡ false) here w.free

Waits-kept :
    (id : ℕ) (t : Start) (ms : List Message) (c : IsConsistent ms)
    → t.drawn ≢ id
    → Waits ms t
    → Waits (kept id ms c) t
Waits-kept id t ms c ne w =
    let v = relink-Kept id ms c w.message w.there in
    record {
      message = relink (λ m. elem m.id (id ∷ [])) ms w.message;
      there = member-kept id ms c w.message w.there (λ z. ne (sym w.same_id ∙ z));
      same_id = v.same_id ∙ w.same_id;
      free = Kept-free id w.message _ v w.free;
      not_nil = w.not_nil;
    }

pub Holds-complete :
    {live rest todo : List Start} (s : Start) (job : CurrentJob) (db : Database)
    → Taken s live rest
    → job.id ≡ s.drawn
    → Holds db live todo
    → (db' : Database) × ((complete job db).0 ≡ ok db') × Holds db' rest todo
Holds-complete {live} {rest} {todo} s job db t same h =
    let w = All-Memᴰ (Waits db.messages) live h.waits (Taken-Memᴰ t) in
    let ne = λ (z : job.id ≡ uuid_nil). w.not_nil (sym same ∙ z) in
    let head = Waits-IsHead job.id s db h.consistent same w in
    let (db', p, q, r) = complete_kept job db h.consistent ne head in
    (
      db',
      p,
      record {
        consistent =
            subst IsConsistent (sym q) (kept-IsConsistent job.id db.messages h.consistent ne head);
        waits =
            All-both rest (Taken-apart t h.apart) (Taken-All (Waits db.messages) t h.waits)
              (λ x apart v.
                subst (λ ms. Waits ms x) (sym q)
                  (Waits-kept job.id x db.messages h.consistent (λ z. apart (z ∙ same)) v));
        apart = Taken-Pairwise t h.apart;
        only = λ m k. only_left m (subst (Memᴰ m) q k);
        fresh =
            All-map todo
              (λ x f.
                IsFresh-fewer db db' _ x
                  (subst (KeepIds db.messages) (sym q)
                    (KeepIds-kept job.id db.messages h.consistent))
                  r f)
              h.fresh;
        apart_todo = h.apart_todo;
      },
    )
  where
    only_left :
        (m : Message)
        → Memᴰ m (kept job.id db.messages h.consistent)
        → (m.id ≡ uuid_nil) ⊎ ((x : Start) × Memᴰ x rest × (x.drawn ≡ m.id))
    only_left m k =
        let (b, kb, ne, v) = kept-member job.id db.messages h.consistent m k in
        elim (h.only b kb) [
          | inl z ↦ inl (v.same_id ∙ z)
          | inr (x, kx, e) ↦ elim (Taken-split x t kx) [
            | inl z ↦ absurd (ne (sym e ∙ ap (λ (y : Start). y.drawn) z ∙ sym same))
            | inr left ↦ inr (x, left, e ∙ sym v.same_id)
          ]
        ]
