-- ===== src/Store.antt =====
-- The tables of migrations/20210316025847_setup.up.sql, with their constraints. A transaction is
-- atomic: an operation returns the new tables, or an error and nothing changes. Times and
-- intervals count microseconds, a time from the earliest timestamp that the database holds.
pub mod Insert
pub mod Remove
pub mod Schedule
pub mod Poll
pub mod Consistent
pub mod Payloads
pub mod Channel
pub mod Reach
pub mod Examples
use sqlxmq.Prelude.{
  ℕ, String, ℤ, ◌≡◌, Bool, true, false, ◌&&◌, ◌||◌, not, List, [], ◌∷◌, Option, none, some, ◌==◌,
  str_eq, sql_eq, any, if◌then◌else◌, SqlxError, database, Fallible, ok, err, ◌>>=◌, ◌>>◌, guard,
}

-- A row of mq_msgs.
pub record Message : Type 0 where
  pub id : ℕ
  pub created_at : ℕ
  pub attempt_at : Option ℕ
  pub attempts : ℤ
  pub retry_backoff : ℕ
  pub channel_name : String
  pub channel_args : String
  pub commit_interval : Option ℕ
  pub after_message_id : Option ℕ

-- A row of mq_payloads.
pub record Payload : Type 0 where
  pub id : ℕ
  pub name : String
  pub payload_json : Option String
  pub payload_bytes : Option (List ℕ)

-- The tables, and the channels that transactions notified when they committed, newest first: those
-- of one call are what it puts before the earlier ones.
pub record Database : Type 0 where
  pub messages : List Message
  pub payloads : List Payload
  pub notified : List String

-- `uuid_nil()`
abbrev pub uuid_nil : ℕ
uuid_nil = 0

-- mq_uuid_exists
abbrev pub uuid_exists : Option ℕ → Bool
uuid_exists none = false
uuid_exists (some id) = not (id == uuid_nil)

abbrev pub after_index : String
after_index = "mq_msgs_channel_name_channel_args_after_message_id_idx"

abbrev pub after_fkey : String
after_fkey = "mq_msgs_after_message_id_fkey"

abbrev pub unique_violation : String → SqlxError
unique_violation c = database (some "23505") (some c)

abbrev pub foreign_key_violation : String → SqlxError
foreign_key_violation c = database (some "23503") (some c)

-- "integer out of range"
abbrev pub int_out_of_range : SqlxError
int_out_of_range = database (some "22003") none

-- "timestamp out of range"
abbrev pub time_out_of_range : SqlxError
time_out_of_range = database (some "22008") none

-- "invalid input syntax for type json"
abbrev pub invalid_json : SqlxError
invalid_json = database (some "22P02") none

abbrev pub in_channel : String → String → Message → Bool
in_channel name args m = str_eq m.channel_name name && str_eq m.channel_args args

-- Two rows that the unique index on the channel and `after_message_id` refuses; NULLs differ.
abbrev pub conflicts : Message → Message → Bool
conflicts m n = elim m.after_message_id [
  | none ↦ false
  | some a ↦ in_channel m.channel_name m.channel_args n && sql_eq n.after_message_id a
]

abbrev pub has_conflict : List Message → Bool
has_conflict [] = false
has_conflict (m ∷ ms) = any (conflicts m) ms || has_conflict ms

-- The foreign key of `after_message_id`: NULL, or the id of a row.
abbrev pub is_linked : List Message → Message → Bool
is_linked ms m = elim m.after_message_id [ none ↦ true | some a ↦ any (λ n. n.id == a) ms ]

abbrev pub has_dangling : List Message → Bool
has_dangling ms = any (λ m. not (is_linked ms m)) ms

-- `UPDATE mq_msgs SET … WHERE …`, for the updates that leave the constrained columns alone.
unfoldable pub update_where :
    (Message → Bool) → (Message → Fallible Message) → List Message → Fallible (List Message)
update_where test set [] = ok []
update_where test set (m ∷ ms) = do
  rest ← update_where test set ms
  m' ← if test m then set m else ok m
  ok (m' ∷ rest)
