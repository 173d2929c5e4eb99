-- ===== src/Store/Channel/Deliver.antt =====
-- A poll of a queue that the calls led to, and the sequence of a channel.
use sqlxmq.Prelude.{ℕ, String, ℤ, ◌≡◌, refl, ap, List, ◌∷◌, Option, Memᴰ, ok}
use sqlxmq.Store.{Message, Database, uuid_nil}
use sqlxmq.Store.Poll.{PolledMessage, poll}
use sqlxmq.Store.Poll.Select.{Keeps, poll_ready}
use sqlxmq.Store.Reach.{Reach, empty_queue, Reach-IsConsistent}
use sqlxmq.Store.Consistent.{IsConsistent}
use sqlxmq.Store.Consistent.Order.{IsReturned, IsOrdered, returned-first}
use sqlxmq.Store.Channel.{Follows, Chain, last, link}
use sqlxmq.Store.Channel.Table.{Follows-unique}
use sqlxmq.Store.Channel.Refine.{queue_after, Reach-IsQueue}

first-Follows :
    {ms : List Message} {name args : String} {ids : List ℕ} (j : ℕ)
    → IsConsistent ms
    → Chain (Follows ms name args) uuid_nil ids
    → Follows ms name args uuid_nil j
    → (rest : List ℕ) × (ids ≡ j ∷ rest)
first-Follows j c (last z) p = absurd (z j p)
first-Follows j c (link {j = k} {ids} q _) p =
    (ids, ap (λ i. i ∷ ids) (Follows-unique c uuid_nil k j q p))

-- In every state that the calls lead to, an ordered message that a poll returns is the first one of its
-- channel's sequence: of the ordered messages that were spawned there and are not deleted yet, the
-- one that was spawned first.
pub delivered_first :
    {to_jsonb : String → Option String} {start : ℕ} {db : Database}
    (r : Reach to_jsonb (empty_queue start) db)
    (shuffle : List (String × String) → List (String × String)) (now : ℕ)
    (names : Option (List String)) (batch_size : ℤ) (db' : Database) (rows : List PolledMessage)
    (m : Message)
    → Keeps shuffle
    → poll shuffle now names batch_size db ≡ ok (db', rows)
    → Memᴰ m db.messages
    → IsReturned m rows
    → IsOrdered m
    → (rest : List ℕ) × (queue_after m.channel_name m.channel_args r ≡ m.id ∷ rest)
delivered_first {to_jsonb} {start} {db} r shuffle now names batch_size db' rows m keeps e k returned
      ordered =
    let c = Reach-IsConsistent to_jsonb r in
    let ready = poll_ready shuffle now names batch_size db db' rows keeps e in
    let after =
      returned-first shuffle now names batch_size db db' rows m c ready k returned ordered in
    let q = Reach-IsQueue m.channel_name m.channel_args r in
    first-Follows m.id c q.chain
      (record { message = m; member = k; channel = (refl, refl); after = after; same = refl })
