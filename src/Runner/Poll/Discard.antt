-- ===== src/Runner/Poll/Discard.antt =====
-- The deletion of the polled messages that were never committed.
use mathlib.Core.Bool.{false≢true}
use sqlxmq.Prelude.{
  ℕ, ◌≡◌, ◌≢◌, refl, sym, ap, ◌∙◌, ◌⊎◌, subst, inl, inr, Bool, true, false, List, [], ◌∷◌, some,
  ◌==◌, ==_iff, any-false, elem, All, Memᴰ, Bool-cases, Option-cases, ◌||◌, some_injective,
  not-none-some, arith,
}
use sqlxmq.Store.{Message, Database, uuid_nil}
use sqlxmq.Store.Poll.{PolledMessage}
use sqlxmq.Store.Poll.Select.{Channel, RowOf}
use sqlxmq.Store.Consistent.{IsConsistent}
use sqlxmq.Store.Consistent.Delete.{delete_where-IsConsistent}
use sqlxmq.Store.Channel.Heads.{heads_kept, delete_heads, heads_kept_id}
use sqlxmq.Runner.{JobRunner}
use sqlxmq.Runner.Poll.{direct, delete_and_dispatch, dispatch_messages, ids_to_delete}
use sqlxmq.Runner.Job.Complete.{IsHead, delete_of}
use sqlxmq.Spawn.{exists}

ids_to_delete_cases :
    (row : PolledMessage) (rows : List PolledMessage)
    → (ids_to_delete (row ∷ rows) ≡ ids_to_delete rows)
      ⊎ ((j : ℕ) × (row.id ≡ some j) × (ids_to_delete (row ∷ rows) ≡ j ∷ ids_to_delete rows))
unfolding ids_to_delete
ids_to_delete_cases row rows = elim (Option-cases row.is_committed) [
  | inl e ↦ inl (rw e refl)
  | inr (b, e) ↦ elim (Bool-cases b) [
    | inl t ↦ inl (rw (e, t) refl)
    | inr f ↦ elim (Option-cases row.id) [
      | inl n ↦ inl (rw (e, f, n) refl)
      | inr (j, n) ↦ inr (j, n, rw (e, f, n) refl)
    ]
  ]
]

-- The ids of rows that were never committed.
pub ids_to_delete-All :
    (P : ℕ → Type 0) (rows : List PolledMessage)
    → All (RowOf P) rows
    → (i : ℕ) → elem i (ids_to_delete rows) ≡ true
    → P i
unfolding ids_to_delete
ids_to_delete-All P [] h i e = absurd (false≢true e)
ids_to_delete-All P (row ∷ rows) h i e = elim (ids_to_delete_cases row rows) [
  | inl same ↦ ids_to_delete-All P rows h.1 i (subst (λ ids. elem i ids ≡ true) same e)
  | inr (j, p, more) ↦ elim (Bool-cases (j == i)) [
    | inl z ↦ subst P ((==_iff j i).0 z) (of_row j p h.0)
    | inr z ↦
        let e' : (j == i || elem i (ids_to_delete rows)) ≡ true =
          subst (λ ids. elem i ids ≡ true) more e in
        ids_to_delete-All P rows h.1 i (second (j == i) (elem i (ids_to_delete rows)) z e')
  ]
]
  where
    of_row : (j : ℕ) → row.id ≡ some j → RowOf P row → P j
    of_row j p (inl x) = absurd (not-none-some (sym x ∙ p))
    of_row j p (inr (k, x, q)) = subst P (some_injective (sym x ∙ p)) q

    second : (a b : Bool) → a ≡ false → (a || b) ≡ true → b ≡ true
    second a b f e = ground arith

pub elem-ids_to_delete :
    (rows : List PolledMessage) (row : PolledMessage) (i : ℕ)
    → Memᴰ row rows
    → row.id ≡ some i
    → row.is_committed ≡ some false
    → elem i (ids_to_delete rows) ≡ true
unfolding ids_to_delete
elem-ids_to_delete [] row i k e c = elim k [ ]
elem-ids_to_delete (x ∷ rows) row i (Memᴰ.head p) e c =
    let committed = ap (λ (r : PolledMessage). r.is_committed) (sym p) ∙ c in
    let found = ap (λ (r : PolledMessage). r.id) (sym p) ∙ e in
    rw (committed, found, (==_iff i i).1 refl) refl
elem-ids_to_delete (x ∷ rows) row i (Memᴰ.tail k) e c =
    let rest = elem-ids_to_delete rows row i k e c in
    elim (ids_to_delete_cases x rows) [
      | inl same ↦ subst (λ ids. elem i ids ≡ true) (sym same) rest
      | inr (j, _, more) ↦
          subst (λ ids. elem i ids ≡ true) (sym more)
            (or_true (j == i) (elem i (ids_to_delete rows)) rest)
    ]
  where
    or_true : (a b : Bool) → b ≡ true → (a || b) ≡ true
    or_true a b e = ground arith

-- After the deletion the messages are gone.
pub delete_and_dispatch-heads :
    (shuffle : List Channel → List Channel) (now : ℕ) (r : JobRunner) (rows : List PolledMessage)
    (ids : List ℕ) (db : Database)
    → IsConsistent db.messages
    → ((i : ℕ) → elem i ids ≡ true → (i ≢ uuid_nil) × IsHead i db)
    → (db' : Database) × (delete_and_dispatch (direct shuffle now) r rows ids db
        ≡ dispatch_messages r rows db')
      × ((i : ℕ) → elem i ids ≡ true → exists i db' ≡ false)
      × IsConsistent db'.messages
unfolding delete_and_dispatch exists
delete_and_dispatch-heads shuffle now r rows [] db c heads =
    (db, refl, (λ i e. absurd (false≢true e)), c)
delete_and_dispatch-heads shuffle now r rows (id ∷ ids) db c heads =
    let gone = λ (m : Message). elem m.id (id ∷ ids) in
    let waits =
      λ (d : Message) (kd : Memᴰ d db.messages) (g : gone d ≡ true). (heads d.id g).1 d kd refl in
    let stays = λ (m : Message) (z : m.id ≡ uuid_nil). spared (id ∷ ids) heads m z in
    let e = delete_heads gone db.messages c waits stays in
    let (db', p, q) = delete_of (id ∷ ids) db _ e in
    (
      db',
      rw (p, delete_and_dispatch) refl,
      (λ i z. rw q (
          any-false (λ (m : Message). m.id == i) (heads_kept gone db.messages c waits stays)
            λ a k.
              let (b, g, same) = heads_kept_id gone db.messages c waits stays a k in
              other (id ∷ ids) i a.id z (subst (λ j. elem j (id ∷ ids) ≡ false) (sym same) g))),
      subst IsConsistent (sym q) (delete_where-IsConsistent gone db.messages c _ stays e),
    )
  where
    other : (ids : List ℕ) (i j : ℕ) → elem i ids ≡ true → elem j ids ≡ false → (j == i) ≡ false
    other ids i j e f = elim (Bool-cases (j == i)) [
      | inl z ↦
          absurd (false≢true (sym f ∙ subst (λ k. elem k ids ≡ true) (sym ((==_iff j i).0 z)) e))
      | inr z ↦ z
    ]

    spared :
        (ids : List ℕ)
        → ((i : ℕ) → elem i ids ≡ true → (i ≢ uuid_nil) × IsHead i db)
        → (m : Message) → m.id ≡ uuid_nil
        → elem m.id ids ≡ false
    spared ids heads m z = elim (Bool-cases (elem m.id ids)) [
      | inl e ↦ absurd ((heads m.id e).0 z)
      | inr e ↦ e
    ]
