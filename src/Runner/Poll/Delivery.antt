-- ===== src/Runner/Poll/Delivery.antt =====
-- What becomes of the rows of committed messages.
use sqlxmq.Prelude.{
  ℕ, String, ℤ, ◌+◌, ◌≡◌, ◌≢◌, refl, sym, ap, ◌∙◌, subst, inl, inr, Bool, true, List, [], ◌∷◌, map,
  Option, none, some, ◌==◌, ==_iff, find?, All, All-map, Memᴰ, arith, ok, >>=-eq-ok, Option-cases,
  Bool-cases, some_injective, not-none-some,
}
use sqlxmq.Store.{Message, Payload, Database, uuid_nil}
use sqlxmq.Store.Poll.{
  PgInterval, PolledMessage, poll, polled_row, returned_rows, wait_row, limit, select_messages,
  is_ready,
}
use sqlxmq.Store.Poll.Claim.{Claims}
use sqlxmq.Store.Poll.Concurrent.{claim_inversion}
use sqlxmq.Store.Poll.Select.{Channel, Keeps, IsReadyId, RowOf, poll_ready}
use sqlxmq.Store.Consistent.Update.{Claims-Updated}
use sqlxmq.Store.Payloads.{Keyed, Updated-HasPayloads}
use sqlxmq.Store.Reach.{Reach, empty_queue}
use sqlxmq.Store.Reach.Stored.{Reach-IsStored}
use sqlxmq.Runner.{JobRunner, CurrentJob}
use sqlxmq.Runner.Poll.{to_job, dispatch_all}
use sqlxmq.Runner.Poll.Dispatch.{to_job-id}

Keyed-found :
    (i : ℕ) (ps : List Payload)
    → Keyed i ps
    → (p : Payload) × (find? (λ (x : Payload). x.id == i) ps ≡ some p)
Keyed-found i [] (b, k, q) = elim k [ ]
Keyed-found i (p ∷ ps) (b, Memᴰ.head z, q) =
    (p, rw ((==_iff p.id i).1 (ap (λ (x : Payload). x.id) (sym z) ∙ q)) refl)
Keyed-found i (p ∷ ps) (b, Memᴰ.tail k, q) = elim (Bool-cases (p.id == i)) [
  | inl e ↦ (p, rw e refl)
  | inr e ↦ let (x, f) = Keyed-found i ps (b, k, q) in (x, rw e f)
]

-- The row has what a job needs, if it is that of a message.
abbrev IsWhole : PolledMessage → Type 0
IsWhole row =
    (i : ℕ)
    → row.id ≡ some i
    → i ≢ uuid_nil
    → ((name : String) × (row.name ≡ some name)) × ((b : PgInterval) × (row.retry_backoff ≡ some b))

polled_row-IsWhole :
    (ps : List Payload) (m : Message)
    → (m.id ≢ uuid_nil → Keyed m.id ps)
    → IsWhole (polled_row ps m)
unfolding polled_row
polled_row-IsWhole ps m h i e nn =
    let (p, f) = Keyed-found m.id ps (h λ z. nn (sym (some_injective e) ∙ z)) in
    ((p.name, rw (f, polled_row) refl), (_, refl))

returned_rows-IsWhole :
    (now : ℕ) (names : Option (List String)) (ps : List Payload) (ms claimed : List Message)
    → All (λ (m : Message). m.id ≢ uuid_nil → Keyed m.id ps) claimed
    → All IsWhole (returned_rows now names ps ms claimed)
unfolding returned_rows wait_row
returned_rows-IsWhole now names ps ms [] h = ((λ i e. absurd (not-none-some e)), tt)
returned_rows-IsWhole now names ps ms (m ∷ claimed) h = go (m ∷ claimed) h
  where
    go :
        (xs : List Message)
        → All (λ (x : Message). x.id ≢ uuid_nil → Keyed x.id ps) xs
        → All IsWhole (map (polled_row ps) xs)
    go [] h = tt
    go (x ∷ xs) h = (polled_row-IsWhole ps x h.0, go xs h.1)

claimed_kept :
    {now : ℕ} {ids : List ℕ} {ms old claimed : List Message} {P : Message → Type 0}
    → Claims now ids ms old claimed
    → ((m : Message) → Memᴰ m old → P m)
    → All P claimed
claimed_kept Claims.done h = tt
claimed_kept (Claims.take hit e c) h =
    (h _ (Memᴰ.head refl), claimed_kept c λ m k. h m (Memᴰ.tail k))
claimed_kept (Claims.pass miss c) h = claimed_kept c λ m k. h m (Memᴰ.tail k)

-- The row of a committed message becomes one of the jobs.
abbrev pub IsDelivered : List CurrentJob → PolledMessage → Type 0
IsDelivered jobs row =
    (i : ℕ)
    → row.id ≡ some i
    → row.is_committed ≡ some true
    → (job : CurrentJob) × Memᴰ job jobs × (job.id ≡ i)

-- With a job's id, the row has a name and a backoff.
abbrev IsNamed : PolledMessage → Type 0
IsNamed row =
    (i : ℕ)
    → row.id ≡ some i
    → ((name : String) × (row.name ≡ some name)) × ((b : PgInterval) × (row.retry_backoff ≡ some b))

to_job-some :
    (keep : Bool) (row : PolledMessage) (i : ℕ) (name : String) (b : PgInterval)
    → row.id ≡ some i
    → row.is_committed ≡ some true
    → row.name ≡ some name
    → row.retry_backoff ≡ some b
    → (job : CurrentJob) × (to_job keep row ≡ some job)
unfolding to_job
to_job-some keep row i name b e₁ e₂ e₃ e₄ = elim (Option-cases (to_job keep row)) [
  | inl e ↦ absurd (ground arith)
  | inr found ↦ found
]

skipped :
    (r : JobRunner) (row : PolledMessage) (rows : List PolledMessage)
    → to_job r.options.keep_alive row ≡ none
    → (dispatch_all r (row ∷ rows)).1 ≡ (dispatch_all r rows).1
unfolding dispatch_all
skipped r row rows e = rw (e, dispatch_all) refl

handed_out :
    (r : JobRunner) (row : PolledMessage) (rows : List PolledMessage) (job : CurrentJob)
    → to_job r.options.keep_alive row ≡ some job
    → (dispatch_all r (row ∷ rows)).1
      ≡ job ∷ (dispatch_all (record r { running_jobs = r.running_jobs + 1 }) rows).1
unfolding dispatch_all
handed_out r row rows job e = rw (e, dispatch_all) refl

delivered :
    (r : JobRunner) (rows : List PolledMessage)
    → All IsNamed rows
    → All (IsDelivered (dispatch_all r rows).1) rows
delivered r [] h = tt
delivered r (row ∷ rows) h = elim (Option-cases (to_job r.options.keep_alive row)) [
  | inl e ↦
      subst (λ js. All (IsDelivered js) (row ∷ rows)) (sym (skipped r row rows e))
        (
          (λ i p c.
              let ((name, n), (b, w)) = h.0 i p in
              let (job, f) = to_job-some r.options.keep_alive row i name b p c n w in
              absurd (not-none-some (sym e ∙ f))),
          delivered r rows h.1,
        )
  | inr (job, e) ↦
      let rest = delivered (record r { running_jobs = r.running_jobs + 1 }) rows h.1 in
      subst (λ js. All (IsDelivered js) (row ∷ rows)) (sym (handed_out r row rows job e))
        (
          (λ i p c. (
            job,
            Memᴰ.head refl,
            some_injective (sym (to_job-id r.options.keep_alive row job e) ∙ p),
          )),
          All-map rows (λ x d i p c. let (j, k, q) = d i p c in (j, Memᴰ.tail k, q)) rest,
        )
]

named :
    (now : ℕ) (names : Option (List String)) (ms : List Message) (rows : List PolledMessage)
    → All IsWhole rows
    → All (RowOf (IsReadyId now names ms)) rows
    → All IsNamed rows
named now names ms [] h r = tt
named now names ms (row ∷ rows) h r =
    ((λ i e. h.0 i e (not_nil i e r.0)), named now names ms rows h.1 r.1)
  where
    ready-ne_nil : (m : Message) (i : ℕ) → m.id ≡ i → is_ready now m ≡ true → i ≢ uuid_nil
    ready-ne_nil m i e h z = ground arith

    not_nil : (i : ℕ) → row.id ≡ some i → RowOf (IsReadyId now names ms) row → i ≢ uuid_nil
    not_nil i e (inl x) = absurd (not-none-some (sym x ∙ e))
    not_nil i e (inr (j, x, (m, _, p, q, _))) = ready-ne_nil m i (p ∙ some_injective (sym x ∙ e)) q

-- In every state of the queue, each row of a poll that stands for a committed message is handed out
-- as a job of that message: none is passed over for want of a name or a backoff.
pub poll_delivers :
    (to_jsonb : String → Option String) (shuffle : List Channel → List Channel) (start now : ℕ)
    (names : Option (List String)) (batch_size : ℤ) (db db' : Database) (rows : List PolledMessage)
    (runner : JobRunner)
    → Reach to_jsonb (empty_queue start) db
    → Keeps shuffle
    → poll shuffle now names batch_size db ≡ ok (db', rows)
    → All (IsDelivered (dispatch_all runner rows).1) rows
unfolding poll
poll_delivers to_jsonb shuffle start now names batch_size db db' rows runner r keeps e =
    let (batch, _, e₂) = >>=-eq-ok (limit batch_size) _ e in
    let ids = map (λ (m : Message). m.id) (select_messages shuffle names batch now db.messages) in
    let (claimed, c, p) = claim_inversion now names ids db db' rows e₂ in
    let stored =
      Updated-HasPayloads db.messages db'.messages db.payloads (Claims-Updated c)
        (Reach-IsStored to_jsonb r) in
    let whole =
      returned_rows-IsWhole now names db.payloads db'.messages claimed (claimed_kept c stored) in
    delivered runner rows (
      named now names db.messages rows (subst (All IsWhole) (sym p) whole)
        (poll_ready shuffle now names batch_size db db' rows keeps e))
