-- ===== src/Spawn/Stale.antt =====
-- The errors of `spawn` at an outdated snapshot.
use mathlib.Core.Bool.{false≢true}
use sqlxmq.Prelude.{
  ℕ, String, ◌≡◌, ◌≢◌, refl, sym, ◌∙◌, subst, ◌⊎◌, inl, inr, true, false, not, List, [], ◌∷◌,
  Option, none, some, ◌==◌, ==_iff, any, Memᴰ, Memᴰ-any, none_of_any, arith, ok, err, SqlxError,
  Option-cases, Bool-cases, some_injective, not-none-some,
}
use sqlxmq.Store.{Message, Database, uuid_nil, conflicts, is_linked, has_dangling}
use sqlxmq.Store.Insert.{latest_message, message_row, insert, insert_seeing}
use sqlxmq.Store.Consistent.{IsConsistent, conflicts→}
use sqlxmq.Store.Consistent.Insert.{message_row-ok}
use sqlxmq.Store.Reach.{Reach, empty_queue, Reach-IsConsistent}
use sqlxmq.Store.Channel.{Follows, IsQueue, Chain, last, last_or}
use sqlxmq.Store.Channel.Append.{last_or-link}
use sqlxmq.Store.Channel.Latest.{latest_message-last_or}
use sqlxmq.Store.Channel.Refine.{queue_after, Reach-IsQueue, after_of-ordered, after_of-unordered}
use sqlxmq.Retry.{should_retry}
use sqlxmq.Spawn.{JobBuilder, bind_message, spawn_seeing, spawn}
use sqlxmq.Spawn.Errors.{spawn_seeing_error}

-- The message of this id is gone.
abbrev pub IsGone : ℕ → List Message → Type 0
IsGone i ms = any (λ (m : Message). m.id == i) ms ≡ false

-- A message of the channel follows that of this id.
abbrev pub IsTaken : String → String → ℕ → List Message → Type 0
IsTaken name args i ms = (j : ℕ) × Follows ms name args i j

-- In a consistent table, a new row dangles only if the message that it follows is gone.
IsGone-of :
    (r : Message) (ms : List Message)
    → IsConsistent ms
    → has_dangling (r ∷ ms) ≡ true
    → (i : ℕ) × (r.after_message_id ≡ some i) × IsGone i ms
IsGone-of r ms c h =
    let (m, k, e) = Memᴰ-any (λ m. not (is_linked (r ∷ ms) m)) (r ∷ ms) h in
    elim (Option-cases m.after_message_id) [
      | inl n ↦ absurd (unlinked_none m n e)
      | inr (i, p) ↦ new_only m k i p (unlinked m i p e)
    ]
  where
    unlinked_none :
        (m : Message) → m.after_message_id ≡ none → ¬ (not (is_linked (r ∷ ms) m) ≡ true)
    unlinked_none m n e = false≢true (rw n at e)

    unlinked :
        (m : Message) (i : ℕ)
        → m.after_message_id ≡ some i
        → not (is_linked (r ∷ ms) m) ≡ true
        → any (λ (n : Message). n.id == i) (r ∷ ms) ≡ false
    unlinked m i p e = ground arith

    new_only :
        (m : Message)
        → Memᴰ m (r ∷ ms)
        → (i : ℕ) → m.after_message_id ≡ some i
        → any (λ (n : Message). n.id == i) (r ∷ ms) ≡ false
        → (i : ℕ) × (r.after_message_id ≡ some i) × IsGone i ms
    new_only m (Memᴰ.head z) i p u =
        (i, subst (λ (x : Message). x.after_message_id ≡ some i) z p, ground arith)
    new_only m (Memᴰ.tail k) i p u =
        let (b, kb, z) = c.linked m i k p in
        absurd (
          false≢true (
            sym (none_of_any (λ (n : Message). n.id == i) (r ∷ ms) b u (Memᴰ.tail kb))
            ∙ (==_iff b.id i).1 z))

-- Of the messages of a table whose channel is a queue, the one that mq_latest_message gives is there, and
-- none follows it.
latest-there :
    (name args : String) (ms : List Message) (queue : List ℕ)
    → IsConsistent ms
    → IsQueue ms name args queue
    → (¬ IsGone (latest_message name args ms) ms)
      × (¬ IsTaken name args (latest_message name args ms) ms)
latest-there name args ms queue c q =
    subst (λ i. (¬ IsGone i ms) × (¬ IsTaken name args i ms))
      (sym (latest_message-last_or c queue q)) (at_end queue q.chain)
  where
    here : (i : ℕ) (m : Message) → Memᴰ m ms → m.id ≡ i → ¬ IsGone i ms
    here i m k e g =
        false≢true (sym (none_of_any (λ (n : Message). n.id == i) ms m g k) ∙ (==_iff m.id i).1 e)

    at_end :
        (ids : List ℕ)
        → Chain (Follows ms name args) uuid_nil ids
        → (¬ IsGone (last_or uuid_nil ids) ms) × (¬ IsTaken name args (last_or uuid_nil ids) ms)
    at_end [] (last z) = let (n, k, e, _) = c.has_nil in ((here uuid_nil n k e), (λ (j, f). z j f))
    at_end (k ∷ ids) chain =
        let ((h, f), z) = last_or-link k ids chain in
        ((here (last_or k ids) f.message f.member f.same), (λ (j, g). z j g))

-- At the snapshot of the tables themselves, this is `spawn`.
spawn_seeing-spawn :
    (to_jsonb : String → Option String) (now : ℕ) (b : JobBuilder) (db : Database)
    → spawn_seeing to_jsonb now b db.messages db ≡ spawn to_jsonb now b db
unfolding spawn_seeing spawn insert insert_seeing
spawn_seeing-spawn to_jsonb now b db = refl

-- The row that a snapshot gives: it follows a message only if the job is ordered, and then the latest
-- of its channel.
follows-latest :
    (now : ℕ) (b : JobBuilder) (seen : List Message) (r : Message) (i : ℕ)
    → message_row now (bind_message b ∷ []) seen (bind_message b) ≡ ok r
    → r.after_message_id ≡ some i
    → (b.ordered ≡ true) × (i ≡ latest_message b.channel_name b.channel_args seen)
follows-latest now b seen r i e p =
    let (_, _, after, _) = message_row-ok now (bind_message b ∷ []) seen (bind_message b) r e in
    elim (Bool-cases b.ordered) [
      | inl o ↦ (
        o,
        some_injective (sym p ∙ after ∙ after_of-ordered b.channel_name b.channel_args b seen o),
      )
      | inr o ↦ absurd (
          not-none-some
            (sym (after_of-unordered b.channel_name b.channel_args b seen o) ∙ sym after ∙ p))
    ]

IsTaken-of :
    (now : ℕ) (b : JobBuilder) (seen : List Message) (r : Message) (ms : List Message)
    → message_row now (bind_message b ∷ []) seen (bind_message b) ≡ ok r
    → any (conflicts r) ms ≡ true
    → (i : ℕ) × (r.after_message_id ≡ some i) × IsTaken b.channel_name b.channel_args i ms
unfolding bind_message
IsTaken-of now b seen r ms e h =
    let (name, args, _, _) = message_row-ok now (bind_message b ∷ []) seen (bind_message b) r e in
    let (n, k, c) = Memᴰ-any (conflicts r) ms h in
    let ((sn, sa), i, p, q) = conflicts→ r n c in
    (
      i,
      p,
      (
        n.id,
        record {
          message = n;
          member = k;
          channel = (sym sn ∙ name, sym sa ∙ args);
          after = q;
          same = refl;
        },
      ),
    )

-- Where the statement of `spawn` computed its row from a snapshot, outdated or not, and the tables
-- are by then in any reachable state: an error that `should_retry` takes for worth a retry says that
-- the job is ordered, and that the message which the snapshot gave as the latest of its channel is
-- gone or has got a follower in the channel by then. A new attempt is to follow another message, so
-- that the snapshot was outdated: without other transactions in between there is no such error.
pub spawn_error :
    {to_jsonb : String → Option String} {start : ℕ} {db : Database}
    (reach : Reach to_jsonb (empty_queue start) db) (now : ℕ) (b : JobBuilder) (seen : List Message)
    (x : SqlxError)
    → spawn_seeing to_jsonb now b seen db ≡ err x
    → should_retry x ≡ true
    → let i = latest_message b.channel_name b.channel_args seen in
      (b.ordered ≡ true)
      × (IsTaken b.channel_name b.channel_args i db.messages ⊎ IsGone i db.messages)
      × (latest_message b.channel_name b.channel_args db.messages ≢ i)
spawn_error {to_jsonb} {start} {db} reach now b seen x e h =
    let (r, row, why) = spawn_seeing_error to_jsonb now b seen db x e h in
    elim why [
      | inl clash ↦
          let (i, p, t) = IsTaken-of now b seen r db.messages row clash in
          at_latest r i row p (inl t)
      | inr dangles ↦
          let (i, p, g) = IsGone-of r db.messages c dangles in at_latest r i row p (inr g)
    ]
  where
    c : IsConsistent db.messages
    c = Reach-IsConsistent to_jsonb reach

    At : ℕ → Type 0
    At i = IsTaken b.channel_name b.channel_args i db.messages ⊎ IsGone i db.messages

    not_latest : (i : ℕ) → At i → latest_message b.channel_name b.channel_args db.messages ≢ i
    not_latest i alt z =
        let (there, free) =
          latest-there b.channel_name b.channel_args db.messages
            (queue_after b.channel_name b.channel_args reach) c
            (Reach-IsQueue b.channel_name b.channel_args reach) in
        elim alt [
          | inl t ↦
              free (subst (λ j. IsTaken b.channel_name b.channel_args j db.messages) (sym z) t)
          | inr g ↦ there (subst (λ j. IsGone j db.messages) (sym z) g)
        ]

    at_latest :
        (r : Message) (i : ℕ)
        → message_row now (bind_message b ∷ []) seen (bind_message b) ≡ ok r
        → r.after_message_id ≡ some i
        → At i
        → (b.ordered ≡ true)
          × At (latest_message b.channel_name b.channel_args seen)
          × (latest_message b.channel_name b.channel_args db.messages
              ≢ latest_message b.channel_name b.channel_args seen)
    at_latest r i row p alt =
        let (o, same) = follows-latest now b seen r i row p in
        let alt' = subst At same alt in (o, alt', not_latest _ alt')
