-- ===== src/Store/Poll.antt =====
-- mq_poll as replaced by migrations/20220208120856_fix_concurrent_poll.up.sql, with
-- mq_active_channels of migrations/20210316025847_setup.up.sql. `ORDER BY RANDOM()` is a
-- parameter; a poll is its subquery over one snapshot, and then the UPDATE of the rows as they are.
pub mod Claim
pub mod Bound
pub mod Concurrent
pub mod Retries
pub mod Select
pub mod Idle
pub mod Serve
use sqlxmq.Prelude.{
  ℕ, zero, suc, String, ℤ, pos, negsuc, pos_part, ◌-ℤ◌, fits_int, eq_ℤ, ◌+◌, ◌-◌, ◌*◌, ◌/◌, ◌%◌,
  Bool, true, false, ◌&&◌, ◌||◌, not, List, [], ◌∷◌, ◌++◌, map, Option, none, some, ◌==◌, ltb, leb,
  str_eq, any, elem, find?, filter, take, if◌then◌else◌, SqlxError, database, Fallible, ok, err,
  ◌>>=◌, ◌>>◌, guard,
}
use sqlxmq.Store.{Message, Payload, Database, uuid_nil, uuid_exists, int_out_of_range, in_channel}

-- `PgInterval`: an INTERVAL as the client reads it.
pub record PgInterval : Type 0 where
  pub months : ℤ
  pub days : ℤ
  pub microseconds : ℤ

-- A row that mq_poll returns; the runner reads it as a `PolledMessage`.
pub record PolledMessage : Type 0 where
  pub id : Option ℕ
  pub is_committed : Option Bool
  pub name : Option String
  pub payload_json : Option String
  pub payload_bytes : Option (List ℕ)
  pub retry_backoff : Option PgInterval
  pub wait_time : Option PgInterval

abbrev pub of_microseconds : ℕ → PgInterval
of_microseconds n = record { months = pos 0; days = pos 0; microseconds = pos n }

abbrev pub micros_per_day : ℕ
micros_per_day = 86400000000

-- An INTERVAL of a sign: minus is for a difference below zero.
abbrev signed : Bool → ℕ → ℤ
signed minus zero = pos 0
signed true (suc n) = negsuc n
signed false n = pos n

-- The difference of two timestamps, its hours folded into days of 24 hours.
unfoldable pub time_difference : ℕ → ℕ → PgInterval
time_difference a b =
    let minus = ltb a b in
    let size = (a - b) + (b - a) in
    record {
      months = pos 0;
      days = signed minus (size / micros_per_day);
      microseconds = signed minus (size % micros_per_day);
    }

-- `channel_names IS NULL OR channel_name = ANY(channel_names)`
abbrev pub subscribes : Option (List String) → Message → Bool
subscribes none m = true
subscribes (some names) m = any (str_eq m.channel_name) names

-- `attempt_at <= NOW()`, which a NULL does not pass.
abbrev pub is_due : ℕ → Message → Bool
is_due now m = elim m.attempt_at [ none ↦ false | some t ↦ leb t now ]

-- What both subqueries ask of a message.
abbrev pub is_ready : ℕ → Message → Bool
is_ready now m = not (m.id == uuid_nil) && is_due now m && not (uuid_exists m.after_message_id)

-- The channels of the messages, each once: `GROUP BY channel_name, channel_args`.
unfoldable pub channels : List Message → List (String × String)
channels [] = []
channels (m ∷ ms) =
    let rest = channels ms in
    if any (in_channel m.channel_name m.channel_args) ms
    then rest
    else (m.channel_name, m.channel_args) ∷ rest

-- `a.attempt_at` before `b.attempt_at`; both are due, so not NULL.
abbrev pub earlier : Message → Message → Bool
earlier a b = elim a.attempt_at [
  | none ↦ false
  | some s ↦ elim b.attempt_at [ none ↦ true | some t ↦ ltb s t ]
]

unfoldable pub insert_by_time : Message → List Message → List Message
insert_by_time m [] = m ∷ []
insert_by_time m (n ∷ ns) = if earlier n m then n ∷ insert_by_time m ns else m ∷ n ∷ ns

-- `ORDER BY attempt_at ASC`
unfoldable pub sort_by_time : List Message → List Message
unfolding insert_by_time
sort_by_time [] = []
sort_by_time (m ∷ ms) = insert_by_time m (sort_by_time ms)

-- "LIMIT must not be negative"
abbrev pub negative_limit : SqlxError
negative_limit = database (some "2201W") none

unfoldable pub limit : ℤ → Fallible ℕ
limit (pos n) = ok n
limit (negsuc n) = err negative_limit

-- The LATERAL subquery, for each channel.
unfoldable pub channel_messages : ℕ → ℕ → List Message → List (String × String) → List Message
unfolding sort_by_time
channel_messages batch now ms [] = []
channel_messages batch now ms ((name, args) ∷ rest) =
    take batch (sort_by_time (filter (λ m. is_ready now m && in_channel name args m) ms))
    ++ channel_messages batch now ms rest

-- The SET and the WHERE of the UPDATE, for a message among the selected.
unfoldable pub claim_message : ℕ → Message → Fallible Message
claim_message now m = do
  guard (fits_int (m.attempts -ℤ pos 1)) int_out_of_range
  ok (record m {
    attempt_at = if eq_ℤ m.attempts (pos 1) then none else some (now + m.retry_backoff);
    attempts = m.attempts -ℤ pos 1;
    retry_backoff = m.retry_backoff * 2;
  })

-- The RETURNING, from the row as updated and its payload, if it has one.
unfoldable pub polled_row : List Payload → Message → PolledMessage
polled_row ps m = record {
  id = some m.id;
  is_committed = some (elim m.commit_interval [ none ↦ true | some _ ↦ false ]);
  name = elim payload [ none ↦ none | some p ↦ some p.name ];
  payload_json = elim payload [ none ↦ none | some p ↦ p.payload_json ];
  payload_bytes = elim payload [ none ↦ none | some p ↦ p.payload_bytes ];
  retry_backoff = some (of_microseconds (m.retry_backoff / 2));
  wait_time = some (of_microseconds 0);
}
  where
    payload : Option Payload
    payload = find? (λ p. p.id == m.id) ps

abbrev pub is_claimed : ℕ → List ℕ → Message → Bool
is_claimed now ids m = elem m.id ids && is_due now m

-- The UPDATE: the new table, and the rows that it updated.
unfoldable pub claim_messages : ℕ → List ℕ → List Message → Fallible (List Message × List Message)
unfolding claim_message
claim_messages now ids [] = ok ([], [])
claim_messages now ids (m ∷ ms) = do
  rest ← claim_messages now ids ms
  if is_claimed now ids m
      then (do m' ← claim_message now m; ok (m' ∷ rest.0, m' ∷ rest.1))
      else ok (m ∷ rest.0, rest.1)

-- `MIN(attempt_at)`, which passes over NULLs.
unfoldable pub earliest : List Message → Option ℕ
earliest [] = none
earliest (m ∷ ms) =
    let rest = earliest ms in
    elim m.attempt_at [
      | none ↦ rest
      | some t ↦ elim rest [ none ↦ some t | some s ↦ if ltb s t then some s else some t ]
    ]

-- What the second query asks of a message.
abbrev pub is_waiting : Option (List String) → Message → Bool
is_waiting names m =
    not (m.id == uuid_nil) && not (uuid_exists m.after_message_id) && subscribes names m

-- The row that is returned where the UPDATE found nothing.
unfoldable pub wait_row : ℕ → Option (List String) → List Message → PolledMessage
unfolding earliest time_difference
wait_row now names ms = record {
  id = none;
  is_committed = none;
  name = none;
  payload_json = none;
  payload_bytes = none;
  retry_backoff = none;
  wait_time = elim (earliest (filter (is_waiting names) ms)) [
    | none ↦ none
    | some t ↦ some (time_difference t now)
  ];
}

-- The rows that the UPDATE returns, or that of the second query.
unfoldable pub returned_rows :
    ℕ → Option (List String) → List Payload → List Message → List Message → List PolledMessage
unfolding polled_row wait_row
returned_rows now names ps ms [] = wait_row now names ms ∷ []
returned_rows now names ps ms (m ∷ claimed) = map (polled_row ps) (m ∷ claimed)

-- The UPDATE, its RETURNING and the second query, for ids that a snapshot gave.
unfoldable pub claim :
    ℕ → Option (List String) → List ℕ → Database → Fallible (Database × List PolledMessage)
unfolding claim_messages returned_rows
claim now names ids db = do
  (messages, claimed) ← claim_messages now ids db.messages
  ok (record db { messages = messages }, returned_rows now names db.payloads messages claimed)

module _ (shuffle : List (String × String) → List (String × String)) where
  -- mq_active_channels
  unfoldable pub active_channels :
      Option (List String) → ℕ → ℕ → List Message → List (String × String)
  unfolding channels
  active_channels names batch now ms =
      take batch (shuffle (channels (filter (λ m. is_ready now m && subscribes names m) ms)))

  -- The subquery `messages_to_update`, over a snapshot of the table.
  unfoldable pub select_messages : Option (List String) → ℕ → ℕ → List Message → List Message
  unfolding active_channels channel_messages
  select_messages names batch now ms =
      take batch (channel_messages batch now ms (active_channels names batch now ms))

  -- mq_poll, with no other transaction between its snapshot and its UPDATE.
  unfoldable pub poll :
      ℕ → Option (List String) → ℤ → Database → Fallible (Database × List PolledMessage)
  unfolding limit select_messages claim
  poll now names batch_size db = do
    batch ← limit batch_size
    claim now names (map (λ m. m.id) (select_messages names batch now db.messages)) db
