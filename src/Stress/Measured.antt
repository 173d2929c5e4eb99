-- ===== src/Stress/Measured.antt =====
-- The jobs of the stress program from their start to the result that they send.
use sqlxmq.Prelude.{
  ℕ, String, ◌-◌, ◌≤◌, ◌≡◌, ◌≢◌, refl, sym, ◌∙◌, ap, subst, true, false, List, [], ◌∷◌, ◌++◌,
  Option, some, some_injective, ◌==◌, ==_iff, none_of_any, All, All-Memᴰ, Memᴰ, Pairwise, ok, ltb,
  arith,
}
use mathlib.Core.Bool.{false≢true}
use sqlxmq.Store.{Message, Database, uuid_nil, uuid_exists}
use sqlxmq.Store.Consistent.{IsConsistent, Distinct-eq}
use sqlxmq.Spawn.{exists}
use sqlxmq.Runner.{CurrentJob}
use sqlxmq.Runner.Job.{json, complete}
use sqlxmq.Runner.Job.Complete.{IsHead, complete_head}
use sqlxmq.Macros.Static.{Scope}
use sqlxmq.Stress.{Start, schedule_tasks, finished, run_example_job}
use sqlxmq.Stress.Jobs.{IsFresh, IsEncoded, IsThere, schedule_tasks_lem}

-- A fresh id is not that of the nil message.
pub fresh-ne_nil :
    (db : Database) (s : Start) → IsConsistent db.messages → IsFresh db s → s.drawn ≢ uuid_nil
fresh-ne_nil db s c f z =
    let (b, k, e, _) = c.has_nil in
    false≢true (
      sym (none_of_any (λ (m : Message). m.id == s.drawn) db.messages b f.no_message k)
      ∙ (==_iff b.id s.drawn).1 (e ∙ sym z))

there-IsHead :
    (db : Database) (s : Start)
    → IsConsistent db.messages
    → IsThere db.messages s
    → IsHead s.drawn db
there-IsHead db s c (m, k, e, _, unordered) n kn en =
    let same = Distinct-eq db.messages m n c.distinct k kn (e ∙ sym en) in
    subst (λ a. uuid_exists a ≡ false)
      (sym unordered ∙ ap (λ (x : Message). x.after_message_id) same) refl

pub run-complete :
    (from_str : String → Option ℕ) (end_time start_time : ℕ) (job : CurrentJob) (text : String)
    (db db' : Database) (results : List ℕ)
    → job.payload_json ≡ some text
    → from_str text ≡ some start_time
    → start_time ≤ end_time
    → (complete job db).0 ≡ ok db'
    → run_example_job from_str true end_time job db results
      ≡ (finished, db', results ++ ((end_time - start_time) ∷ []))
unfolding run_example_job json
run-complete from_str end_time start_time job text db db' results e₁ e₂ h p =
    rw (e₁, json, run_example_job) (rw e₂ (rw p (rw (in_order end_time start_time h) refl)))
  where
    in_order : (i j : ℕ) → j ≤ i → ltb i j ≡ false
    in_order i j h = ground arith

-- Once `start_job` calls as in `schedule_tasks_lem` have run, the job of each of them, with its payload
-- as it was written and a later reading of the clock, finishes while results are received: its message
-- is gone, and it sends the time that has passed since its start.
pub run_example_job-finished :
    {F C E R : Type 0} (sc : Scope F C E R) (show : ℕ → String) (to_json : ℕ → Option String)
    (to_jsonb : String → Option String) (from_str : String → Option ℕ) (starts : List Start)
    (db db' : Database) (s : Start) (job : CurrentJob) (text : String) (end_time : ℕ)
    (results : List ℕ)
    → IsConsistent db.messages
    → All (IsFresh db) starts
    → Pairwise (λ (s t : Start). s.drawn ≢ t.drawn) starts
    → All (IsEncoded sc show to_json to_jsonb) starts
    → schedule_tasks sc show to_json to_jsonb starts db ≡ some db'
    → Memᴰ s starts
    → job.id ≡ s.drawn
    → job.payload_json ≡ some text
    → from_str text ≡ some s.elapsed
    → s.elapsed ≤ end_time
    → (after : Database) × (run_example_job from_str true end_time job db' results
        ≡ (finished, after, results ++ ((end_time - s.elapsed) ∷ [])))
      × (exists job.id after ≡ false)
run_example_job-finished sc show to_json to_jsonb from_str starts db db' s job text end_time results
      c fresh distinct encoded e k id payload read later =
    let (db₁, p, c₁, _, there) =
      schedule_tasks_lem sc show to_json to_jsonb starts db c fresh distinct encoded in
    let same = some_injective (sym p ∙ e) in
    let c' = subst (λ (d : Database). IsConsistent d.messages) same c₁ in
    let there' = subst (λ (d : Database). All (IsThere d.messages) starts) same there in
    let head = there-IsHead db' s c' (All-Memᴰ _ starts there' k) in
    let ne = fresh-ne_nil db s c (All-Memᴰ _ starts fresh k) in
    let (after, done, _, gone, _) =
      complete_head job db' c' (λ z. ne (sym id ∙ z)) (subst (λ i. IsHead i db') (sym id) head) in
    (
      after,
      run-complete from_str end_time s.elapsed job text db' after results payload read later done,
      gone,
    )
