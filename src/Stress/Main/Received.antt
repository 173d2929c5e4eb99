-- ===== src/Stress/Main/Received.antt =====
-- What each event of a run of the stress program makes of its queue and of its results.
use mathlib.Core.List.{append-nil, append_assoc}
use sqlxmq.Prelude.{
  ℕ, suc, String, ◌+◌, ◌-◌, ◌<◌, ◌≡◌, refl, sym, ap, ◌∙◌, inl, inr, true, List, [], ◌∷◌, ◌++◌,
  Option, none, some, All, ok, Fallible-cases, length, ltb, arith,
}
use sqlxmq.Store.{Database}
use sqlxmq.Store.Poll.{claim}
use sqlxmq.Store.Schedule.{keep_alive}
use sqlxmq.Store.Consistent.Update.{keep_alive-Updated}
use sqlxmq.Runner.{CurrentJob}
use sqlxmq.Runner.Job.{complete}
use sqlxmq.Macros.Static.{Scope}
use sqlxmq.Stress.{Start, Ended, start_job, run_example_job}
use sqlxmq.Stress.Jobs.{IsEncoded}
use sqlxmq.Stress.Measured.{run-complete}
use sqlxmq.Stress.Main.{
  RunEvent, started, claimed, kept_alive, ended, poll_rows, or_same, run_event, run_events,
}
use sqlxmq.Stress.Main.Tables.{claim-Updates}
use sqlxmq.Stress.Main.Runs.{Runs, over, starts, polls, keeps, ends, Ends}
use sqlxmq.Stress.Main.Holds.{Holds, Holds-Updates, Holds-start}
use sqlxmq.Stress.Main.Completed.{Holds-complete}

length-append_one : (xs : List ℕ) (x : ℕ) → length (xs ++ (x ∷ [])) ≡ suc (length xs)
length-append_one [] x = refl
length-append_one (y ∷ xs) x = ap suc (length-append_one xs x)

Holds-poll_rows :
    {live todo : List Start} (now : ℕ) (names : Option (List String)) (ids : List ℕ) (db : Database)
    → Holds db live todo
    → Holds (poll_rows now names ids db) live todo
unfolding poll_rows
Holds-poll_rows {live} {todo} now names ids db h = elim (Fallible-cases (claim now names ids db)) [
  | inl (x, e) ↦ rw (e, poll_rows) h
  | inr ((db', rows), e) ↦
      rw (e, poll_rows) (Holds-Updates db db' (claim-Updates now names ids db db' rows e) h)
]

Holds-keep_alive :
    {live todo : List Start} (now : ℕ) (ids : List ℕ) (duration : ℕ) (db : Database)
    → Holds db live todo
    → Holds (or_same db (keep_alive now ids duration db)) live todo
Holds-keep_alive {live} {todo} now ids duration db h =
    elim (Fallible-cases (keep_alive now ids duration db)) [
      | inl (x, e) ↦ rw e h
      | inr (db', e) ↦ rw e (Holds-Updates db db' (keep_alive-Updated now ids duration db db' e) h)
    ]

module _ {F C E R : Type 0} (sc : Scope F C E R) (show : ℕ → String) (to_json : ℕ → Option String)
    (to_jsonb : String → Option String) (from_str : String → Option ℕ) (num_jobs : ℕ) where
  abbrev run_all : List RunEvent → Database → List ℕ → Option (Database × List ℕ)
  run_all = run_events sc show to_json to_jsonb from_str num_jobs

  -- The queue holds no job at the end, and the results come in the order of the ends.
  abbrev pub IsRun : List RunEvent → Database → List ℕ → List ℕ → Type 0
  IsRun events db results times =
      (db' : Database) × (run_all events db results ≡ some (db', results ++ times))
      × Holds db' [] []

  event_started :
      (s : Start) (db db' : Database) (results : List ℕ)
      → start_job sc show to_json to_jsonb s db ≡ some db'
      → run_event sc show to_json to_jsonb from_str num_jobs (started s) db results
        ≡ some (db', results)
  unfolding run_event
  event_started s db db' results p = ap (λ r. elim r [ none ↦ none | some d ↦ some (d, results) ]) p

  event_ended :
      (s : Start) (job : CurrentJob) (end_time : ℕ) (db db' : Database) (results : List ℕ)
      → Ends from_str s job end_time
      → length results < num_jobs
      → (complete job db).0 ≡ ok db'
      → run_event sc show to_json to_jsonb from_str num_jobs (ended job end_time) db results
        ≡ some (db', results ++ ((end_time - s.elapsed) ∷ []))
  unfolding run_event
  event_ended s job end_time db db' results e few p =
      ap
        (λ receiving.
          let (how, after, all) = run_example_job from_str receiving end_time job db results in
          some (after, all))
        receives
      ∙ ap (λ (x : Ended × Database × List ℕ). some (x.1, x.2))
          (run-complete from_str end_time s.elapsed job e.text db db' results e.payload e.reads
            e.in_order p)
    where
      receives : ltb (length results) num_jobs ≡ true
      receives = ground arith

  run_next :
      (event : RunEvent) (events : List RunEvent) (db db' : Database) (results results' : List ℕ)
      → run_event sc show to_json to_jsonb from_str num_jobs event db results ≡ some (db', results')
      → run_all (event ∷ events) db results ≡ run_all events db' results'
  unfolding run_events
  run_next event events db db' results results' p =
      ap (λ r. elim r [ none ↦ none | some (d, rs) ↦ run_all events d rs ]) p

  IsRun-ended :
      (s : Start) (job : CurrentJob) (end_time : ℕ) (events : List RunEvent) (db db' : Database)
      (results times : List ℕ)
      → Ends from_str s job end_time
      → length results < num_jobs
      → (complete job db).0 ≡ ok db'
      → IsRun events db' (results ++ ((end_time - s.elapsed) ∷ [])) times
      → IsRun (ended job end_time ∷ events) db results ((end_time - s.elapsed) ∷ times)
  IsRun-ended s job end_time events db db' results times e few p (last, q, h) =
      let add = append_assoc results ((end_time - s.elapsed) ∷ []) times in
      let next = event_ended s job end_time db db' results e few p in
      (
        last,
        run_next (ended job end_time) events db db' results _ next
            ∙ q
            ∙ ap (λ r. some (last, r)) add,
        h,
      )

  pub Runs-IsRun :
      {live todo : List Start} (events : List RunEvent) (times : List ℕ) (db : Database)
      (results : List ℕ)
      → Runs from_str live todo events times
      → Holds db live todo
      → All (IsEncoded sc show to_json to_jsonb) todo
      → length results + length times ≡ num_jobs
      → IsRun events db results times
  unfolding run_events run_event
  Runs-IsRun [] [] db results over h e n =
      (db, ap (λ r. some (db, r)) (sym (append-nil results)), h)
  Runs-IsRun [] (time ∷ times) db results r h e n = elim r [ ]
  Runs-IsRun (ended job end_time ∷ events) [] db results r h e n = elim r [ ]
  Runs-IsRun (started s ∷ events) times db results (starts r) h e n =
      let (db', p, h') = Holds-start sc show to_json to_jsonb s db e.0 h in
      let (last, q, hl) = Runs-IsRun events times db' results r h' e.1 n in
      (
        last,
        run_next (started s) events db db' results results (event_started s db db' results p) ∙ q,
        hl,
      )
  Runs-IsRun (claimed now names ids ∷ events) times db results (polls r) h e n =
      Runs-IsRun events times (poll_rows now names ids db) results r
        (Holds-poll_rows now names ids db h) e n
  Runs-IsRun (kept_alive now ids duration ∷ events) times db results (keeps r) h e n =
      Runs-IsRun events times (or_same db (keep_alive now ids duration db)) results r
        (Holds-keep_alive now ids duration db h) e n
  Runs-IsRun (ended job end_time ∷ events) (time ∷ times) db results (ends {s} t d r) h e n =
      let (db', p, h') = Holds-complete s job db t d.same_id h in
      IsRun-ended s job end_time events db db' results times d (omega (arith, n)) p (
        Runs-IsRun events times db' (results ++ ((end_time - s.elapsed) ∷ [])) r h' e
          (omega (arith, n, length-append_one results (end_time - s.elapsed))))
