-- ===== src/Store/Channel/Refine.antt =====
-- The calls on the queue against the sequence of a channel's ordered messages, as a client sees it.
use mathlib.Core.Bool.{false≢true}
use sqlxmq.Prelude.{
  ℕ, String, ◌≡◌, refl, sym, ap, ◌∙◌, subst, inl, inr, Bool, true, false, ◌&&◌, not, List, [], ◌∷◌,
  ◌++◌, filter, Option, none, some, ◌==◌, ==_iff, str_eq, str_eq_iff, any, elem, Memᴰ, Bool-cases,
  if◌then◌else◌, ok, ok_injective, not-none-some, none_of_any, arith, >>=-eq-ok,
}
use sqlxmq.Store.{Message, Database, uuid_nil}
use sqlxmq.Store.Insert.{after_of, latest_message}
use sqlxmq.Store.Remove.{delete_where, delete, clear, clear_all}
use sqlxmq.Store.Consistent.Update.{
  Claims-Updated, commit-Updated, keep_alive-Updated, checkpoint-Updated,
}
use sqlxmq.Store.Poll.Concurrent.{claim_inversion}
use sqlxmq.Store.Consistent.Clear.{clear_lem, clear_all_lem}
use sqlxmq.Store.Reach.Stored.{delete_where-ok}
use sqlxmq.Store.Reach.{
  Step, Reach, empty_queue, here, next, spawned, committed, kept_alive, checkpointed, polled,
  deleted, cleared, cleared_all, Reach-IsConsistent, Step-IsConsistent,
}
use sqlxmq.Store.Consistent.{IsConsistent}
use sqlxmq.Store.Channel.{Follows, IsQueue, last}
use sqlxmq.Store.Channel.Table.{Updated-IsQueue, Follows-not_nil}
use sqlxmq.Store.Channel.Deleted.{deleted-IsQueue}
use sqlxmq.Store.Channel.Latest.{latest_message-last_or}
use sqlxmq.Spawn.{JobBuilder, bind_message, spawn}
use sqlxmq.Store.Consistent.Insert.{message_row-ok, lag_alone}
use sqlxmq.Store.Channel.Spawned.{
  other-IsQueue, ordered-IsQueue, none_left-IsQueue, all_left-IsQueue,
}
use sqlxmq.Spawn.Effect.{spawn_inversion}

module _ (name args : String) where
  abbrev pub is_ordered_here : JobBuilder → Bool
  is_ordered_here b = b.ordered && str_eq b.channel_name name && str_eq b.channel_args args

  abbrev pub with_spawned : JobBuilder → List ℕ → List ℕ
  with_spawned b queue = if is_ordered_here b then queue ++ b.id ∷ [] else queue

  -- What a call does to the sequence of the channel.
  abbrev pub next_queue :
      {to_jsonb : String → Option String} {db db' : Database}
      → Step to_jsonb db db'
      → List ℕ
      → List ℕ
  next_queue (spawned now b id e) queue = with_spawned b queue
  next_queue (committed ids e) queue = queue
  next_queue (kept_alive now ids duration e) queue = queue
  next_queue (checkpointed now id duration json bytes extra e) queue = queue
  next_queue (polled now names ids rows e) queue = queue
  next_queue (deleted ids h e) queue = filter (λ id. not (elem id ids)) queue
  next_queue (cleared names e) queue = if any (str_eq name) names then [] else queue
  next_queue (cleared_all e) queue = []

  -- The sequence after the calls on an empty queue.
  abbrev pub queue_after :
      {to_jsonb : String → Option String} {start db : Database} → Reach to_jsonb start db → List ℕ
  queue_after here = []
  queue_after (next r s) = next_queue s (queue_after r)

  in_this_channel :
      (a b : String) → (str_eq a name && str_eq b args) ≡ true → (a ≡ name) × (b ≡ args)
  in_this_channel a b h =
      ((str_eq_iff a name).0 (ground arith), (str_eq_iff b args).0 (ground arith))

  -- What an ordered message by itself follows.
  pub after_of-ordered :
      (b : JobBuilder) (ms : List Message)
      → b.ordered ≡ true
      → after_of (bind_message b ∷ []) ms (bind_message b)
        ≡ some (latest_message b.channel_name b.channel_args ms)
  unfolding after_of bind_message
  after_of-ordered b ms h = ground (arith, lag_alone (bind_message b))

  pub after_of-unordered :
      (b : JobBuilder) (ms : List Message)
      → b.ordered ≡ false
      → after_of (bind_message b ∷ []) ms (bind_message b) ≡ none
  unfolding after_of bind_message
  after_of-unordered b ms h = ground arith

  is_unordered :
      (b : JobBuilder)
      → is_ordered_here b ≡ false
      → b.channel_name ≡ name
      → b.channel_args ≡ args
      → b.ordered ≡ false
  is_unordered b h p q =
      ground (arith, str_eq_iff b.channel_name name, str_eq_iff b.channel_args args)

  module _ (to_jsonb : String → Option String) where
    spawn-IsQueue :
        (now id : ℕ) (b : JobBuilder) (db db' : Database) (queue : List ℕ)
        → spawn to_jsonb now b db ≡ ok (db', id)
        → IsConsistent db.messages
        → IsQueue db.messages name args queue
        → IsQueue db'.messages name args (with_spawned b queue)
    unfolding bind_message
    spawn-IsQueue now id b db db' queue e c q =
        let (r, ps, a, p, _) = spawn_inversion to_jsonb now b db db' id e in
        let (n, g, after, same) =
          message_row-ok now (bind_message b ∷ []) db.messages (bind_message b) r a.row in
        let fresh = λ (m : Message) (k : Memᴰ m db.messages) (z : m.id ≡ r.id). false≢true (
          sym (none_of_any (λ (n : Message). n.id == r.id) db.messages m a.fresh k)
          ∙ (==_iff m.id r.id).1 z) in
        let messages = sym (ap (λ (d : Database). d.messages) p) in
        elim (Bool-cases (is_ordered_here b)) [
          | inl h ↦
              let ordered : b.ordered ≡ true = ground arith in
              let here : str_eq b.channel_name name && str_eq b.channel_args args ≡ true =
                ground arith in
              let (hn, ha) = in_this_channel b.channel_name b.channel_args here in
              rw h (
                subst (λ ms. IsQueue ms name args (queue ++ b.id ∷ [])) messages
                  (subst (λ i. IsQueue (r ∷ db.messages) name args (queue ++ i ∷ [])) same
                    (ordered-IsQueue r c fresh queue (n ∙ hn, g ∙ ha)
                      (after
                        ∙ after_of-ordered b db.messages ordered
                        ∙ ap some (rw (hn, ha) (latest_message-last_or c queue q)))
                      q)))
          | inr h ↦ rw h (
              subst (λ ms. IsQueue ms name args queue) messages
                (other-IsQueue r queue
                  (λ i (hn, ha) z.
                    let unordered = is_unordered b h (sym n ∙ hn) (sym g ∙ ha) in
                    not-none-some (sym (after ∙ after_of-unordered b db.messages unordered) ∙ z))
                  q))
        ]

  delete-IsQueue :
      (ids : List ℕ) (db db' : Database) (queue : List ℕ)
      → delete ids db ≡ ok db'
      → IsConsistent db.messages
      → IsConsistent db'.messages
      → IsQueue db.messages name args queue
      → IsQueue db'.messages name args (filter (λ id. not (elem id ids)) queue)
  unfolding delete
  delete-IsQueue ids db db' queue e c c' q =
      let (ms, e₁, e₂) = >>=-eq-ok (delete_where (λ m. elem m.id ids) db.messages) _ e in
      let messages = ap (λ (d : Database). d.messages) (ok_injective e₂) in
      deleted-IsQueue (λ m. elem m.id ids) db.messages db'.messages name args
        (λ id. not (elem id ids)) c c'
        (sym messages ∙ delete_where-ok (λ m. elem m.id ids) db.messages ms e₁)
        (λ i j p. ap (λ id. not (elem id ids)) (sym p.same)) queue q

  clear-IsQueue :
      (names : List String) (db db' : Database) (queue : List ℕ)
      → clear names db ≡ ok db'
      → IsConsistent db.messages
      → IsQueue db.messages name args queue
      → IsQueue db'.messages name args (if any (str_eq name) names then [] else queue)
  clear-IsQueue names db db' queue e c q =
      let (p, _) = clear_lem names db c in
      let messages = ap (λ (d : Database). d.messages) (ok_injective (sym p ∙ e)) in
      elim (Bool-cases (any (str_eq name) names)) [
        | inl h ↦ rw h (
            subst (λ ms. IsQueue ms name args []) messages
              (none_left-IsQueue _ db.messages name args
                (λ i j p. rw (p.channel.0, h, Follows-not_nil c i j p) refl)))
        | inr h ↦ rw h (
            subst (λ ms. IsQueue ms name args queue) messages
              (all_left-IsQueue _ db.messages name args queue (λ i j p. rw (p.channel.0, h) refl)
                q))
      ]

  clear_all-IsQueue :
      (db db' : Database)
      → clear_all db ≡ ok db'
      → IsConsistent db.messages
      → IsQueue db'.messages name args []
  clear_all-IsQueue db db' e c =
      let (p, _, _) = clear_all_lem db c in
      let messages = ap (λ (d : Database). d.messages) (ok_injective (sym p ∙ e)) in
      subst (λ ms. IsQueue ms name args []) messages
        (none_left-IsQueue _ db.messages name args (λ i j p. rw (Follows-not_nil c i j p) refl))

  module _ {to_jsonb : String → Option String} where
    Step-IsQueue :
        {db db' : Database} (s : Step to_jsonb db db') (queue : List ℕ)
        → IsConsistent db.messages
        → IsQueue db.messages name args queue
        → IsQueue db'.messages name args (next_queue s queue)
    Step-IsQueue {db} {db'} (spawned now b id e) queue c q =
        spawn-IsQueue to_jsonb now id b db db' queue e c q
    Step-IsQueue {db} {db'} (committed ids e) queue c q =
        Updated-IsQueue (commit-Updated ids db db' e).0 q
    Step-IsQueue {db} {db'} (kept_alive now ids duration e) queue c q =
        Updated-IsQueue (keep_alive-Updated now ids duration db db' e).0 q
    Step-IsQueue {db} {db'} (checkpointed now id duration json bytes extra e) queue c q =
        Updated-IsQueue (checkpoint-Updated to_jsonb now id duration json bytes extra db db' e).0 q
    Step-IsQueue {db} {db'} (polled now names ids rows e) queue c q =
        Updated-IsQueue (Claims-Updated (claim_inversion now names ids db db' rows e).1) q
    Step-IsQueue {db} {db'} (deleted ids h e) queue c q =
        delete-IsQueue ids db db' queue e c (Step-IsConsistent to_jsonb (deleted ids h e) c) q
    Step-IsQueue {db} {db'} (cleared names e) queue c q = clear-IsQueue names db db' queue e c q
    Step-IsQueue {db} {db'} (cleared_all e) queue c q = clear_all-IsQueue db db' e c

    -- However the calls on the queue follow one another from an empty queue, the ordered messages of a
    -- channel stand in one sequence, each behind the one before it and the first behind the nil
    -- message: a spawn of an ordered message puts it at the end, deletions take out the deleted ones,
    -- clearing takes out all of the channel, and no other call changes it.
    pub Reach-IsQueue :
        {start : ℕ} {db : Database} (r : Reach to_jsonb (empty_queue start) db)
        → IsQueue db.messages name args (queue_after r)
    Reach-IsQueue {start} here = record {
      chain = last (λ j p. none_there uuid_nil j p);
      covers = λ i j p. absurd (none_there i j p);
      once = tt;
    }
      where
        none_there : (i j : ℕ) → ¬ Follows (empty_queue start).messages name args i j
        none_there i j p = elim p.member [
          | Memᴰ.head e ↦ not-none-some (sym (ap (λ (m : Message). m.after_message_id) e) ∙ p.after)
          | Memᴰ.tail k ↦ elim k [ ]
        ]
    Reach-IsQueue (next r s) =
        Step-IsQueue s (queue_after r) (Reach-IsConsistent to_jsonb r) (Reach-IsQueue r)
