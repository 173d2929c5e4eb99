-- ===== src/Spawn/Wake.antt =====
-- Who hears that the first message of a channel was deleted, and what the deletion leaves for them.
use mathlib.Core.List.{append-nil}
use sqlxmq.Prelude.{
  ℕ, String, ◌≡◌, refl, sym, ap, ◌∙◌, subst, inl, inr, Bool, true, false, ◌&&◌, not, List, [], ◌∷◌,
  ◌++◌, map, filter, Option, some, str_eq, str_eq_iff, sql_eq, any, elem, concat, Memᴰ, Memᴰ-any,
  map-Memᴰ, Memᴰ-append_left, Bool-cases, if◌then◌else◌, ok, >>=-eq-ok, ok_injective,
}
use sqlxmq.Store.{Message, Database, uuid_nil}
use sqlxmq.Store.Insert.{notify_channels}
use sqlxmq.Store.Remove.{delete, delete_where, head_channels}
use sqlxmq.Store.Poll.{subscribes}
use sqlxmq.Store.Reach.{Reach, empty_queue, next, deleted}
use sqlxmq.Store.Channel.{Chain, link, InChannel}
use sqlxmq.Store.Channel.Refine.{queue_after, Reach-IsQueue}
use sqlxmq.Runner.{JobRunnerOptions}
use sqlxmq.Spawn.Notify.{Hears, Hears-of}

head_channels-Memᴰ :
    (ids : List ℕ) (m : Message) (ms : List Message)
    → Memᴰ m ms
    → elem m.id ids ≡ true
    → m.after_message_id ≡ some uuid_nil
    → Memᴰ m.channel_name (head_channels ids ms)
unfolding head_channels
head_channels-Memᴰ ids m [] k e a = elim k [ ]
head_channels-Memᴰ ids m (x ∷ ms) (Memᴰ.head p) e a =
    subst (λ (y : Message). Memᴰ y.channel_name (head_channels ids (x ∷ ms))) (sym p)
      (first x (head_channels ids ms) (subst (λ (y : Message). elem y.id ids ≡ true) p e)
        (subst (λ (y : Message). y.after_message_id ≡ some uuid_nil) p a))
  where
    first :
        (x : Message) (rest : List String)
        → elem x.id ids ≡ true
        → x.after_message_id ≡ some uuid_nil
        → Memᴰ x.channel_name (
            if elem x.id ids
              && sql_eq x.after_message_id uuid_nil
              && not (any (λ c. str_eq c x.channel_name) rest)
            then x.channel_name ∷ rest
            else rest)
    first x rest e a = elim (Bool-cases (any (λ c. str_eq c x.channel_name) rest)) [
      | inl h ↦
          let (c, k, q) = Memᴰ-any (λ c. str_eq c x.channel_name) rest h in
          rw (e, a, h) (subst (λ n. Memᴰ n rest) ((str_eq_iff c x.channel_name).0 q) k)
      | inr h ↦ rw (e, a, h) (Memᴰ.head refl)
    ]
head_channels-Memᴰ ids m (x ∷ ms) (Memᴰ.tail k) e a =
    kept x.channel_name _ (head_channels ids ms) (head_channels-Memᴰ ids m ms k e a)
  where
    kept :
        {n : String} (c : String) (b : Bool) (rest : List String)
        → Memᴰ n rest
        → Memᴰ n (if b then c ∷ rest else rest)
    kept c true rest k = Memᴰ.tail k
    kept c false rest k = k

-- What the notifications of these channels alone are.
added : List String → List String
unfolding notify_channels
added cs = notify_channels cs []

notify_channels-added : (cs sent : List String) → notify_channels cs sent ≡ added cs ++ sent
unfolding notify_channels added
notify_channels-added [] sent = refl
notify_channels-added (c ∷ cs) sent =
    ap (λ ds. "mq" ∷ ds ++ sent) (sym (append-nil (map (λ d. concat "mq_" d) (c ∷ cs))))

added-Memᴰ :
    (c : String) (cs : List String)
    → Memᴰ c cs
    → Memᴰ "mq" (added cs) × Memᴰ (concat "mq_" c) (added cs)
unfolding notify_channels added
added-Memᴰ c [] k = elim k [ ]
added-Memᴰ c (d ∷ cs) k =
    (Memᴰ.head refl, Memᴰ.tail (Memᴰ-append_left _ [] (map-Memᴰ (λ d. concat "mq_" d) (d ∷ cs) k)))

delete-notified :
    (ids : List ℕ) (db db' : Database)
    → delete ids db ≡ ok db'
    → db'.notified ≡ notify_channels (head_channels ids db.messages) db.notified
unfolding delete
delete-notified ids db db' e =
    let (ms, _, e₂) = >>=-eq-ok (delete_where (λ m. elem m.id ids) db.messages) _ e in
    sym (ap (λ (d : Database). d.notified) (ok_injective e₂))

first_of :
    {R : ℕ → ℕ → Type 0} {i k : ℕ} {ids rest : List ℕ} → Chain R i ids → ids ≡ k ∷ rest → R i k
first_of {R} {i} {k} {ids} {rest} c e = go (subst (Chain R i) e c)
  where
    go : Chain R i (k ∷ rest) → R i k
    go (link r _) = r

-- Where a deletion takes out the first message of a channel's sequence and leaves others, the one
-- that is the first then waits for no other message, and every runner that polls for its channel
-- listens on a channel that this deletion notifies: one of those that it adds to the notifications.
pub delete_wakes :
    {to_jsonb : String → Option String} {start : ℕ} {db : Database}
    (r : Reach to_jsonb (empty_queue start) db) (name args : String) (ids : List ℕ) (db' : Database)
    (j k : ℕ) (behind rest : List ℕ) (o : JobRunnerOptions) (n : Message)
    → elem uuid_nil ids ≡ false
    → delete ids db ≡ ok db'
    → queue_after name args r ≡ j ∷ behind
    → elem j ids ≡ true
    → filter (λ id. not (elem id ids)) (queue_after name args r) ≡ k ∷ rest
    → n.channel_name ≡ name
    → subscribes o.channel_names n ≡ true
    → (m : Message) × (sent : List String) × Memᴰ m db'.messages
      × (m.id ≡ k)
      × InChannel name args m
      × (m.after_message_id ≡ some uuid_nil)
      × (db'.notified ≡ sent ++ db.notified)
      × Hears o sent
delete_wakes {db = db} r name args ids db' j k behind rest o n h e before goes after same s =
    let d = first_of (Reach-IsQueue name args r).chain before in
    let m = first_of (Reach-IsQueue name args (next r (deleted ids h e))).chain after in
    let gone : elem d.message.id ids ≡ true = subst (λ i. elem i ids ≡ true) (sym d.same) goes in
    let heads = head_channels ids db.messages in
    let (all, one) =
      added-Memᴰ d.message.channel_name heads
        (head_channels-Memᴰ ids d.message db.messages d.member gone d.after) in
    (
      m.message,
      added heads,
      m.member,
      m.same,
      m.channel,
      m.after,
      delete-notified ids db db' e ∙ notify_channels-added heads db.notified,
      Hears-of o o.channel_names n (added heads) refl s all
          (subst (λ c. Memᴰ (concat "mq_" c) (added heads)) (d.channel.0 ∙ sym same) one),
    )
