-- ===== src/Runner/Poll/Outcome.antt =====
-- What a call of poll_and_dispatch does with each message that its poll returned.
use sqlxmq.Prelude.{
  ℕ, String, ℤ, ◌≡◌, refl, sym, ◌∙◌, ◌⊎◌, subst, inl, inr, Bool, true, false, List, [], ◌∷◌, map,
  Option, none, some, elem, All, Memᴰ, not-none-some, ok, >>=-eq-ok,
}
use sqlxmq.Store.{Message, Payload, Database}
use sqlxmq.Store.Poll.{
  PolledMessage, poll, limit, select_messages, polled_row, returned_rows, wait_row,
}
use sqlxmq.Store.Poll.Select.{Channel, Keeps, IsReadyId, poll_ready}
use sqlxmq.Store.Poll.Concurrent.{claim_inversion}
use sqlxmq.Store.Consistent.{IsConsistent}
use sqlxmq.Store.Consistent.Update.{Updated-IsConsistent, Claims-Updated}
use sqlxmq.Store.Reach.{Reach, empty_queue, Reach-IsConsistent}
use sqlxmq.Runner.{JobRunner, CurrentJob}
use sqlxmq.Runner.Poll.{
  direct, poll_and_dispatch, delete_and_dispatch, dispatch_messages, ids_to_delete, dispatch_all,
  Polled,
}
use sqlxmq.Runner.Poll.Discard.{ids_to_delete-All, elem-ids_to_delete, delete_and_dispatch-heads}
use sqlxmq.Runner.Poll.Delivery.{IsDelivered, poll_delivers}
use sqlxmq.Runner.Job.Complete.{ready-IsHead}
use sqlxmq.Spawn.{exists}

-- A committed message is handed out as a job, another one is deleted.
abbrev pub IsHandled : Polled → PolledMessage → Type 0
IsHandled p row =
    (i : ℕ)
    → row.id ≡ some i
    → ((row.is_committed ≡ some true) × (job : CurrentJob) × Memᴰ job p.dispatched × (job.id ≡ i))
      ⊎ ((row.is_committed ≡ some false) × (exists i p.database ≡ false))

-- A row of a message says whether it is committed.
IsKnown : PolledMessage → Type 0
IsKnown row =
    (i : ℕ) → row.id ≡ some i → (row.is_committed ≡ some true) ⊎ (row.is_committed ≡ some false)

returned_rows-IsKnown :
    (now : ℕ) (names : Option (List String)) (ps : List Payload) (ms claimed : List Message)
    → All IsKnown (returned_rows now names ps ms claimed)
unfolding returned_rows wait_row polled_row IsKnown
returned_rows-IsKnown now names ps ms [] = ((λ i e. absurd (not-none-some e)), tt)
returned_rows-IsKnown now names ps ms (m ∷ claimed) = go (m ∷ claimed)
  where
    known :
        (o : Option ℕ)
        → (◌≡◌ {A = Option Bool} (some (elim o [ none ↦ true | some _ ↦ false ])) (some true))
          ⊎ (some (elim o [ none ↦ true | some _ ↦ false ]) ≡ some false)
    known none = inl refl
    known (some n) = inr refl

    go : (xs : List Message) → All IsKnown (map (polled_row ps) xs)
    go [] = tt
    go (x ∷ xs) = ((λ i e. known x.commit_interval), go xs)

handled :
    (p : Polled) (rows : List PolledMessage)
    → All IsKnown rows
    → All (IsDelivered p.dispatched) rows
    → ((row : PolledMessage) (i : ℕ)
        → Memᴰ row rows
        → row.id ≡ some i
        → row.is_committed ≡ some false
        → exists i p.database ≡ false)
    → All (IsHandled p) rows
unfolding IsKnown
handled p [] k d g = tt
handled p (row ∷ rows) k d g = (
  (λ i e. elim (k.0 i e) [
    | inl c ↦ let (job, m, q) = d.0 i e c in inl (c, job, m, q)
    | inr c ↦ inr (c, g row i (Memᴰ.head refl) e c)
  ]),
  handled p rows k.1 d.1 (λ r i m. g r i (Memᴰ.tail m)),
)

polled-ok :
    (shuffle : List Channel → List Channel) (now : ℕ) (r : JobRunner) (batch_size : ℤ)
    (db db₁ : Database) (rows : List PolledMessage)
    → poll shuffle now r.options.channel_names batch_size db ≡ ok (db₁, rows)
    → poll_and_dispatch (direct shuffle now) r batch_size db
      ≡ delete_and_dispatch (direct shuffle now) r rows (ids_to_delete rows) db₁
unfolding poll_and_dispatch
polled-ok shuffle now r batch_size db db₁ rows e = rw (e, poll_and_dispatch) refl

-- What a call leaves that ends with the dispatch of the rows.
Handles : JobRunner → List PolledMessage → Polled → Type 0
Handles r rows p =
    ((w : ℕ) × (p.wait ≡ ok w)) × All (IsHandled p) rows × IsConsistent p.database.messages

dispatch_messages-Handles :
    (r : JobRunner) (rows : List PolledMessage) (db : Database)
    → All IsKnown rows
    → All (IsDelivered (dispatch_all r rows).1) rows
    → ((row : PolledMessage) (i : ℕ)
        → Memᴰ row rows
        → row.id ≡ some i
        → row.is_committed ≡ some false
        → exists i db ≡ false)
    → IsConsistent db.messages
    → Handles r rows (dispatch_messages r rows db)
unfolding dispatch_messages Handles
dispatch_messages-Handles r rows db known delivered gone c =
    ((_, refl), handled (dispatch_messages r rows db) rows known delivered gone, c)

-- In every state of the queue, a call of poll_and_dispatch whose poll succeeds succeeds: deleting the
-- messages that were never committed meets no constraint. Each message that the poll returned is
-- then handed out as a job, if it was committed, or is gone from the tables, if it was not; and
-- the table of messages stays consistent.
pub poll_and_dispatch_lem :
    (to_jsonb : String → Option String) (shuffle : List Channel → List Channel) (start now : ℕ)
    (r : JobRunner) (batch_size : ℤ) (db db₁ : Database) (rows : List PolledMessage)
    → Reach to_jsonb (empty_queue start) db
    → Keeps shuffle
    → poll shuffle now r.options.channel_names batch_size db ≡ ok (db₁, rows)
    → let p = poll_and_dispatch (direct shuffle now) r batch_size db in
      ((w : ℕ) × (p.wait ≡ ok w)) × All (IsHandled p) rows × IsConsistent p.database.messages
unfolding poll Handles
poll_and_dispatch_lem to_jsonb shuffle start now r batch_size db db₁ rows reach keeps e =
    let names = r.options.channel_names in
    let c = Reach-IsConsistent to_jsonb reach in
    let ready = poll_ready shuffle now names batch_size db db₁ rows keeps e in
    let (batch, _, e₂) = >>=-eq-ok (limit batch_size) _ e in
    let sel = map (λ (m : Message). m.id) (select_messages shuffle names batch now db.messages) in
    let (claimed, cl, rows_eq) = claim_inversion now names sel db db₁ rows e₂ in
    let c₁ = Updated-IsConsistent (Claims-Updated cl) c in
    let heads = λ (i : ℕ) (h : elem i (ids_to_delete rows) ≡ true).
      ready-IsHead now names sel i db db₁ rows c e₂
        (ids_to_delete-All (IsReadyId now names db.messages) rows ready i h) in
    let (db₂, p, gone, c₂) =
      delete_and_dispatch-heads shuffle now r rows (ids_to_delete rows) db₁ c₁ heads in
    let known =
      subst (All IsKnown) (sym rows_eq)
        (returned_rows-IsKnown now names db.payloads db₁.messages claimed) in
    let delivered =
      poll_delivers to_jsonb shuffle start now names batch_size db db₁ rows r reach keeps e in
    subst (Handles r rows) (sym (polled-ok shuffle now r batch_size db db₁ rows e ∙ p)) (
      dispatch_messages-Handles r rows db₂ known delivered
        (λ row i m f x. gone i (elem-ids_to_delete rows row i m f x)) c₂)
