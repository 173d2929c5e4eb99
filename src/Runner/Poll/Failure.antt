-- ===== src/Runner/Poll/Failure.antt =====
-- What a call of `poll_and_dispatch` that ends with an error leaves.
use sqlxmq.Prelude.{
  ℕ, ℤ, ◌≡◌, refl, ◌∙◌, ◌⊎◌, inl, inr, ap, List, [], ◌∷◌, Fallible, ok, err, SqlxError,
  Fallible-cases, err_injective, not-ok-err,
}
use sqlxmq.Store.{Database}
use sqlxmq.Store.Poll.{PolledMessage}
use sqlxmq.Runner.{JobRunner}
use sqlxmq.Runner.Poll.{
  Connection, Polled, poll_and_dispatch, delete_and_dispatch, dispatch_messages, ids_to_delete,
}

-- The poll failed, and the tables are as they were; or the poll went through, the deletion of the
-- messages that were never committed failed, and the tables are as the poll left them.
abbrev pub FailedAt : Connection → JobRunner → ℤ → Database → SqlxError → Database → Type 0
FailedAt c r n db x left =
    ((c.poll r.options.channel_names n db ≡ err x) × (left ≡ db))
    ⊎ ((ms : List PolledMessage) × (c.poll r.options.channel_names n db ≡ ok (left, ms))
        × (c.delete (ids_to_delete ms) left ≡ err x))

-- No job was handed out, and none counted.
abbrev pub IsUntouched : JobRunner → Polled → Type 0
IsUntouched r p = (p.runner ≡ r) × (p.dispatched ≡ [])

same_error :
    {x y : SqlxError}
    → ◌≡◌ {A = Fallible ℕ} (err y) (err x)
    → ◌≡◌ {A = Fallible Database} (err y) (err x)
same_error e = ap err (err_injective e)

deletion_failed :
    (c : Connection) (r : JobRunner) (ms : List PolledMessage) (ids : List ℕ) (db : Database)
    (x : SqlxError)
    → (delete_and_dispatch c r ms ids db).wait ≡ err x
    → (c.delete ids db ≡ err x)
      × IsUntouched r (delete_and_dispatch c r ms ids db)
      × ((delete_and_dispatch c r ms ids db).database ≡ db)
unfolding delete_and_dispatch dispatch_messages
deletion_failed c r ms [] db x e = absurd (not-ok-err e)
deletion_failed c r ms (id ∷ ids) db x e = elim (Fallible-cases (c.delete (id ∷ ids) db)) [
  | inl (y, d) ↦
      rw (d, delete_and_dispatch)
        (same_error (rw (d, delete_and_dispatch) at e), (refl, refl), refl)
  | inr (db', d) ↦ absurd (not-ok-err (rw (d, delete_and_dispatch) at e))
]

module _ (c : Connection) (r : JobRunner) (n : ℤ) (db : Database) where
  pub poll_and_dispatch-err :
      (x : SqlxError)
      → c.poll r.options.channel_names n db ≡ err x
      → poll_and_dispatch c r n db
        ≡ record { database = db; runner = r; dispatched = []; wait = err x }
  unfolding poll_and_dispatch
  poll_and_dispatch-err x e = rw (e, poll_and_dispatch) refl

  pub poll_and_dispatch-ok :
      (db' : Database) (ms : List PolledMessage)
      → c.poll r.options.channel_names n db ≡ ok (db', ms)
      → poll_and_dispatch c r n db ≡ delete_and_dispatch c r ms (ids_to_delete ms) db'
  unfolding poll_and_dispatch
  poll_and_dispatch-ok db' ms e = rw (e, poll_and_dispatch) refl

-- Whatever the connection answers: where `poll_and_dispatch` ends with an error, it has handed out no
-- job and counted none, though the poll may have gone through, where the deletion then failed.
pub poll_and_dispatch_error :
    (c : Connection) (r : JobRunner) (n : ℤ) (db : Database) (x : SqlxError)
    → (poll_and_dispatch c r n db).wait ≡ err x
    → IsUntouched r (poll_and_dispatch c r n db)
      × FailedAt c r n db x (poll_and_dispatch c r n db).database
poll_and_dispatch_error c r n db x e = elim (Fallible-cases (c.poll r.options.channel_names n db)) [
  | inl (y, p) ↦
      let q = poll_and_dispatch-err c r n db y p in
      rw q ((refl, refl), inl (p ∙ ap err (err_injective (rw q at e)), refl))
  | inr ((db', ms), p) ↦
      let q = poll_and_dispatch-ok c r n db db' ms p in
      let (d, u, s) = deletion_failed c r ms (ids_to_delete ms) db' x (rw q at e) in
      rw (q, s) (u, inr (ms, p, d))
]
