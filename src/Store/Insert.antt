-- ===== src/Store/Insert.antt =====
-- mq_insert and mq_latest_message of migrations/20210316025847_setup.up.sql, the second as
-- replaced by migrations/20211013151757_fix_mq_latest_message.up.sql, and the row type mq_new_t.
use sqlxmq.Prelude.{
  ℕ, String, ℤ, pos, ◌+ℤ◌, fits_int, ◌+◌, Bool, true, false, ◌&&◌, not, List, [], ◌∷◌, ◌++◌, map,
  Option, none, some, ◌==◌, ltb, str_eq, sql_eq, any, filter, concat, if◌then◌else◌, Fallible, ok,
  err, ◌>>=◌, ◌>>◌, guard,
}
use sqlxmq.Store.{
  Message, Payload, Database, uuid_nil, after_index, after_fkey, unique_violation,
  foreign_key_violation, int_out_of_range, invalid_json, in_channel, conflicts, has_dangling,
}

-- mq_new_t; the columns that must not be NULL are not optional.
pub record NewMessage : Type 0 where
  pub id : ℕ
  pub delay : ℕ
  pub retries : ℤ
  pub retry_backoff : ℕ
  pub channel_name : String
  pub channel_args : String
  pub commit_interval : Option ℕ
  pub ordered : Bool
  pub name : String
  pub payload_json : Option String
  pub payload_bytes : Option (List ℕ)

later : Message → Option Message → Option Message
later m none = some m
later m (some n) = if ltb m.created_at n.created_at then some n else some m

-- `ORDER BY created_at DESC LIMIT 1`
unfoldable pub newest : List Message → Option Message
unfolding later
newest [] = none
newest (m ∷ ms) = later m (newest ms)

-- An ordered message of the channel that no message follows.
unfoldable pub is_tail : String → String → List Message → Message → Bool
is_tail name args ms m =
    in_channel name args m
    && not (m.id == uuid_nil)
    && (elim m.after_message_id [ none ↦ false | some _ ↦ true ])
    && not (any (λ n. sql_eq n.after_message_id m.id) ms)

unfoldable pub latest_message : String → String → List Message → ℕ
unfolding newest is_tail
latest_message name args ms = elim (newest (filter (is_tail name args ms) ms)) [
  | none ↦ uuid_nil
  | some m ↦ m.id
]

-- `LAG(id) OVER (PARTITION BY channel_name, channel_args, ordered ORDER BY id)` of an ordered row.
-- (Rows of one id never get here: the primary key of mq_payloads refuses them first.)
unfoldable pub lag : NewMessage → List NewMessage → Option ℕ
lag m [] = none
lag m (n ∷ ns) =
    let rest = lag m ns in
    if n.ordered
      && str_eq n.channel_name m.channel_name
      && str_eq n.channel_args m.channel_args
      && ltb n.id m.id
    then elim rest [ none ↦ some n.id | some i ↦ if ltb i n.id then some n.id else some i ]
    else rest

unfoldable pub after_of : List NewMessage → List Message → NewMessage → Option ℕ
unfolding lag
after_of new ms m =
    if m.ordered
    then (elim (lag m new) [
      | none ↦ some (latest_message m.channel_name m.channel_args ms)
      | some i ↦ some i
    ])
    else none

abbrev or_zero : Option ℕ → ℕ
or_zero none = 0
or_zero (some c) = c

-- The row that the last statement of mq_insert selects for a new message.
unfoldable pub message_row : ℕ → List NewMessage → List Message → NewMessage → Fallible Message
unfolding after_of
message_row now new ms m = do
  guard (fits_int (m.retries +ℤ pos 1)) int_out_of_range
  ok (record {
    id = m.id;
    created_at = now;
    attempt_at = some (now + m.delay + or_zero m.commit_interval);
    attempts = m.retries +ℤ pos 1;
    retry_backoff = m.retry_backoff;
    channel_name = m.channel_name;
    channel_args = m.channel_args;
    commit_interval = m.commit_interval;
    after_message_id = after_of new ms m;
  })

-- One row into mq_msgs, past its primary key and its unique index.
unfoldable pub insert_message : Message → List Message → Fallible (List Message)
insert_message m ms = do
  guard (not (any (λ n. n.id == m.id) ms)) (unique_violation "mq_msgs_pkey")
  guard (not (any (conflicts m) ms)) (unique_violation after_index)
  ok (m ∷ ms)

-- The rows of `new`, each computed from the table `old` as the statement found it.
unfoldable pub insert_messages :
    ℕ → List NewMessage → List Message → List NewMessage → List Message → Fallible (List Message)
unfolding message_row insert_message
insert_messages now new old [] ms = ok ms
insert_messages now new old (m ∷ rest) ms = do
  row ← message_row now new old m
  ms' ← insert_message row ms
  insert_messages now new old rest ms'

-- The channels of the new messages, each once.
unfoldable pub new_channels : List NewMessage → List String
new_channels [] = []
new_channels (m ∷ ms) =
    let rest = new_channels ms in
    if any (λ n. str_eq n.channel_name m.channel_name) ms then rest else m.channel_name ∷ rest

-- What `pg_notify(CONCAT('mq_', channel_name), '')` for each channel, and then `pg_notify('mq', '')`
-- if there was one, add to the notifications.
unfoldable pub notify_channels : List String → List String → List String
notify_channels [] sent = sent
notify_channels (c ∷ cs) sent = "mq" ∷ map (λ d. concat "mq_" d) (c ∷ cs) ++ sent

-- `payload_json::JSONB` is read by the database: the canonical text, or none where it is no JSON.
module _ (to_jsonb : String → Option String) where
  unfoldable pub cast_json : Option String → Fallible (Option String)
  cast_json none = ok none
  cast_json (some text) = elim (to_jsonb text) [
    | none ↦ err invalid_json
    | some json ↦ ok (some json)
  ]

  unfoldable pub insert_payload : NewMessage → List Payload → Fallible (List Payload)
  insert_payload m ps = do
    json ← cast_json m.payload_json
    guard (not (any (λ (p : Payload). p.id == m.id) ps)) (unique_violation "mq_payloads_pkey")
    ok (
        record { id = m.id; name = m.name; payload_json = json; payload_bytes = m.payload_bytes }
        ∷ ps)

  unfoldable pub insert_payloads : List NewMessage → List Payload → Fallible (List Payload)
  unfolding insert_payload cast_json
  insert_payloads [] ps = ok ps
  insert_payloads (m ∷ rest) ps = do ps' ← insert_payload m ps; insert_payloads rest ps'

  -- mq_insert
  unfoldable pub insert : ℕ → List NewMessage → Database → Fallible Database
  unfolding insert_payloads insert_messages new_channels notify_channels
  insert now new db = do
    payloads ← insert_payloads new db.payloads
    messages ← insert_messages now new db.messages new db.messages
    guard (not (has_dangling messages)) (foreign_key_violation after_fkey)
    ok (record {
      messages = messages;
      payloads = payloads;
      notified = notify_channels (new_channels new) db.notified;
    })

  -- mq_insert whose last statement computes its rows from `seen`, the table as that statement's
  -- snapshot found it, and meets the constraints in the tables as they are by then: other
  -- transactions may have committed in between.
  unfoldable pub insert_seeing : ℕ → List NewMessage → List Message → Database → Fallible Database
  unfolding insert_payloads insert_messages new_channels notify_channels
  insert_seeing now new seen db = do
    payloads ← insert_payloads new db.payloads
    messages ← insert_messages now new seen new db.messages
    guard (not (has_dangling messages)) (foreign_key_violation after_fkey)
    ok (record {
      messages = messages;
      payloads = payloads;
      notified = notify_channels (new_channels new) db.notified;
    })
