-- ===== src/Runner/Loop/Rounds.antt =====
-- A round of the main loop as steps of the loop with its jobs and its listener.
use sqlxmq.Prelude.{
  ℕ, ℤ, pos, ◌-◌, ◌≤◌, ◌≡◌, refl, sym, ap, ◌∙◌, ◌⊎◌, inl, inr, true, false, List, [], ◌∷◌, ltb,
  arith, ok, Fallible-cases, Bool-cases,
}
use sqlxmq.Store.{Database}
use sqlxmq.Store.Poll.{PolledMessage}
use sqlxmq.Store.Poll.Claim.{Distinct}
use sqlxmq.Store.Poll.Bound.{poll_bounded}
use sqlxmq.Store.Poll.Select.{Channel}
use sqlxmq.Runner.{JobRunner}
use sqlxmq.Runner.Poll.{
  Connection, Polled, direct, poll_and_dispatch, delete_and_dispatch, dispatch_messages,
  dispatch_all, ids_to_delete,
}
use sqlxmq.Runner.Poll.Failure.{poll_and_dispatch-err, poll_and_dispatch-ok}
use sqlxmq.Runner.Loop.{batch_size, round, after_poll}
use sqlxmq.Runner.Loop.Concurrency.{
  Loop, Reach, here, next, loading, loads_few, loads_full, dispatches, fails, batch_size-exact,
}

delete_runner :
    (c : Connection) (r : JobRunner) (ms : List PolledMessage) (ids : List ℕ) (db : Database)
    → ((delete_and_dispatch c r ms ids db).runner ≡ r)
      ⊎ ((delete_and_dispatch c r ms ids db).runner ≡ (dispatch_all r ms).0)
unfolding delete_and_dispatch dispatch_messages
delete_runner c r ms [] db = inr refl
delete_runner c r ms (id ∷ ids) db = elim (Fallible-cases (c.delete (id ∷ ids) db)) [
  | inl (x, e) ↦ inl (rw (e, delete_and_dispatch) refl)
  | inr (db', e) ↦ inr (rw (e, delete_and_dispatch) refl)
]

-- The runner is as it was, or as the jobs of the poll's rows leave it.
poll_runner :
    (c : Connection) (r : JobRunner) (n : ℤ) (db : Database)
    → ((poll_and_dispatch c r n db).runner ≡ r)
      ⊎ ((db' : Database) × (ms : List PolledMessage) × (c.poll r.options.channel_names n db
            ≡ ok (db', ms))
          × ((poll_and_dispatch c r n db).runner ≡ (dispatch_all r ms).0))
poll_runner c r n db = elim (Fallible-cases (c.poll r.options.channel_names n db)) [
  | inl (x, e) ↦ inl (ap (λ (p : Polled). p.runner) (poll_and_dispatch-err c r n db x e))
  | inr ((db', ms), e) ↦
      let q = ap (λ (p : Polled). p.runner) (poll_and_dispatch-ok c r n db db' ms e) in
      elim (delete_runner c r ms (ids_to_delete ms) db') [
        | inl s ↦ inl (q ∙ s)
        | inr s ↦ inr (db', ms, e, q ∙ s)
      ]
]

round-few :
    (c : Connection) (failures : ℕ) (r : JobRunner) (db : Database)
    → ltb r.running_jobs r.options.min_concurrency ≡ true
    → (round c failures r db).runner
      ≡ (poll_and_dispatch c r (batch_size r.options r.running_jobs) db).runner
unfolding round after_poll
round-few c failures r db e = rw (e, round) refl

round-full :
    (c : Connection) (failures : ℕ) (r : JobRunner) (db : Database)
    → ltb r.running_jobs r.options.min_concurrency ≡ false
    → (round c failures r db).runner ≡ r
unfolding round
round-full c failures r db e = rw (e, round) refl

abbrev pub at_start : JobRunner → Loop
at_start r = record { phase = loading; runner = r }

-- A round of the main loop against the tables themselves, with limits that are in order and that an
-- `i32` holds, takes the runner where a sequence of steps of the interleaved loop takes it, from where
-- the loop reads the count of running jobs.
pub round_refines :
    (shuffle : List Channel → List Channel) (now failures : ℕ) (r : JobRunner) (db : Database)
    → Distinct db.messages
    → r.options.min_concurrency ≤ r.options.max_concurrency
    → r.options.max_concurrency ≤ 2147483647
    → (l : Loop) × Reach (at_start r) l
      × (l.runner ≡ (round (direct shuffle now) failures r db).runner)
round_refines shuffle now failures r db d ordered small =
    let c = direct shuffle now in
    elim (Bool-cases (ltb r.running_jobs r.options.min_concurrency)) [
      | inr e ↦ (_, next here (loads_full refl e), sym (round-full c failures r db e))
      | inl e ↦
          let read = r.running_jobs in
          let n = r.options.max_concurrency - read in
          let b : batch_size r.options read ≡ pos n =
            batch_size-exact r.options read (ground arith) small in
          let few = next here (loads_few refl e) in
          let q = round-few c failures r db e in
          elim (poll_runner c r (batch_size r.options read) db) [
            | inl s ↦ (_, next few (fails read refl), sym (q ∙ s))
            | inr (db', ms, p, s) ↦
                let bound =
                  poll_bounded shuffle now r.options.channel_names n db db' ms d (rw b at p) in
                (_, next few (dispatches read n ms refl b bound), sym (q ∙ s))
          ]
    ]
