-- ===== src/Stress/Main/Reports.antt =====
-- A run of the stress program from the deletion of what its queue held to the report.
use sqlxmq.Prelude.{
  ℕ, String, ◌<◌, ◌≡◌, refl, inl, inr, List, [], Option, some, All, All-map, All-of_Memᴰ, All-Memᴰ,
  Memᴰ-filter, Pairwise, not, ok, length, ◌==◌, filter, arith,
}
use sqlxmq.Store.{Message, Database, uuid_nil}
use sqlxmq.Store.Remove.{clear_all}
use sqlxmq.Store.Consistent.{IsConsistent}
use sqlxmq.Store.Consistent.Clear.{clear_all_lem, payloads_left}
use sqlxmq.Macros.Static.{Scope}
use sqlxmq.Stress.{Start, Summary, report}
use sqlxmq.Stress.Jobs.{IsFresh, IsEncoded}
use sqlxmq.Stress.Statistics.{report_lem}
use sqlxmq.Stress.Main.{RunEvent, run_events, main}
use sqlxmq.Stress.Main.Tables.{IsFresh-fewer}
use sqlxmq.Stress.Main.Runs.{Runs, Apart, Runs-length}
use sqlxmq.Stress.Main.Holds.{Holds}
use sqlxmq.Stress.Main.Received.{Runs-IsRun}

module _ {F C E R : Type 0} (sc : Scope F C E R) (show : ℕ → String) (to_json : ℕ → Option String)
    (to_jsonb : String → Option String) (from_str : String → Option ℕ) (num_jobs : ℕ) where
  main-some :
      (events : List RunEvent) (db cleared db' : Database) (times : List ℕ) (s : Summary)
      → clear_all db ≡ ok cleared
      → run_events sc show to_json to_jsonb from_str num_jobs events cleared [] ≡ some (db', times)
      → report num_jobs times ≡ some s
      → main sc show to_json to_jsonb from_str num_jobs events db ≡ some (db', s)
  unfolding main
  main-some events db cleared db' times s p q e = rw (p, main) (rw q (rw e refl))

-- From a consistent table, whatever it holds, a run of `main` in which one job or more starts, with
-- fresh distinct ids and payloads that serde_json writes and the database reads, and each job ends
-- once, after it has started and at a later reading of the clock, with whatever polls and keep-alive
-- calls between them, does not abort or panic: all results are received, what it prints is the
-- report on the times that the jobs took, and the queue is left with the nil message only.
pub main_lem :
    {F C E R : Type 0} (sc : Scope F C E R) (show : ℕ → String) (to_json : ℕ → Option String)
    (to_jsonb : String → Option String) (from_str : String → Option ℕ) (jobs : List Start)
    (events : List RunEvent) (times : List ℕ) (db : Database)
    → Runs from_str [] jobs events times
    → IsConsistent db.messages
    → All (IsFresh db) jobs
    → Pairwise Apart jobs
    → All (IsEncoded sc show to_json to_jsonb) jobs
    → 0 < length jobs
    → (db' : Database) × (s : Summary) × (main sc show to_json to_jsonb from_str
          (length jobs)
          events
          db
        ≡ some (db', s))
      × (report (length jobs) times ≡ some s)
      × All (λ (m : Message). m.id ≡ uuid_nil) db'.messages
main_lem sc show to_json to_jsonb from_str jobs events times db r c f d e more =
    let (p, c', all_nil) = clear_all_lem db c in
    let cleared = record db {
      messages = filter (λ (m : Message). not (not (m.id == uuid_nil))) db.messages;
      payloads = payloads_left (λ (m : Message). not (m.id == uuid_nil)) db;
    } in
    let holds : Holds cleared [] jobs = record {
      consistent = c';
      waits = tt;
      apart = tt;
      only = λ m k. inl (All-Memᴰ (λ (m : Message). m.id ≡ uuid_nil) _ all_nil k);
      fresh =
          All-map jobs
            (λ s h.
              IsFresh-fewer db cleared _ s (λ m k. (m, (Memᴰ-filter _ m db.messages k).0, refl))
                refl h)
            f;
      apart_todo = d;
    } in
    let (db', q, h) =
      Runs-IsRun sc show to_json to_jsonb from_str (length jobs) events times cleared [] r holds e
        (omega (arith, Runs-length r)) in
    let (s, q', _, _, _, _, _, _, _) =
      report_lem (length jobs) times more (omega (arith, Runs-length r)) in
    (
      db',
      s,
      main-some sc show to_json to_jsonb from_str (length jobs) events db cleared db' times s p q
          q',
      q',
      All-of_Memᴰ (λ (m : Message). m.id ≡ uuid_nil) db'.messages
          λ m k. elim (h.only m k) [ inl z ↦ z | inr (x, kx, _) ↦ elim kx [ ] ],
    )
