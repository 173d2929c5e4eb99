-- ===== src/Store/Remove.antt =====
-- mq_delete of migrations/20210316025847_setup.up.sql, mq_clear and mq_clear_all as replaced by
-- migrations/20220713122907_fix-clear_all-keep-nil-message.up.sql.
use sqlxmq.Prelude.{
  ℕ, String, Bool, ◌&&◌, not, List, [], ◌∷◌, map, some, ◌==◌, str_eq, sql_eq, any, elem, filter,
  if◌then◌else◌, Fallible, ok, ◌>>=◌, ◌>>◌, guard,
}
use sqlxmq.Store.{
  Message, Database, uuid_nil, after_index, after_fkey, unique_violation, foreign_key_violation,
  has_conflict, has_dangling,
}
use sqlxmq.Store.Insert.{notify_channels}

-- `ON DELETE SET DEFAULT`: a message that follows a deleted one follows the nil message.
unfoldable pub relink : (Message → Bool) → List Message → Message → Message
relink gone ms m =
    if any (λ d. gone d && sql_eq m.after_message_id d.id) ms
    then record m { after_message_id = some uuid_nil }
    else m

-- `DELETE FROM mq_msgs WHERE …`, with the constraints that its foreign key's action may meet.
unfoldable pub delete_where : (Message → Bool) → List Message → Fallible (List Message)
delete_where gone ms = do
  let kept = map (relink gone ms) (filter (λ m. not (gone m)) ms)
  guard (not (has_conflict kept)) (unique_violation after_index)
  guard (not (has_dangling kept)) (foreign_key_violation after_fkey)
  ok kept

-- The channels of the deleted messages that others may have waited for, each once.
unfoldable pub head_channels : List ℕ → List Message → List String
head_channels ids [] = []
head_channels ids (m ∷ ms) =
    let rest = head_channels ids ms in
    if elem m.id ids
      && sql_eq m.after_message_id uuid_nil
      && not (any (λ c. str_eq c m.channel_name) rest)
    then m.channel_name ∷ rest
    else rest

-- mq_delete
unfoldable pub delete : List ℕ → Database → Fallible Database
unfolding head_channels delete_where relink notify_channels
delete ids db = do
  messages ← delete_where (λ m. elem m.id ids) db.messages
  ok (record {
    messages = messages;
    payloads = filter (λ p. not (elem p.id ids)) db.payloads;
    notified = notify_channels (head_channels ids db.messages) db.notified;
  })

-- `WITH deleted_ids AS (DELETE … RETURNING id) DELETE FROM mq_payloads WHERE id IN …`
unfoldable pub clear_where : (Message → Bool) → Database → Fallible Database
unfolding delete_where relink
clear_where gone db = do
  messages ← delete_where gone db.messages
  ok (record db {
    messages = messages;
    payloads = filter (λ p. not (any (λ m. gone m && p.id == m.id) db.messages)) db.payloads;
  })

-- mq_clear
unfoldable pub clear : List String → Database → Fallible Database
unfolding clear_where
clear names = clear_where λ m. any (str_eq m.channel_name) names && not (m.id == uuid_nil)

-- mq_clear_all
unfoldable pub clear_all : Database → Fallible Database
unfolding clear_where
clear_all = clear_where λ m. not (m.id == uuid_nil)
