-- ===== src/Store/Schedule.antt =====
-- mq_commit, mq_keep_alive and mq_checkpoint of migrations/20210316025847_setup.up.sql.
pub mod TwoPhase
use sqlxmq.Prelude.{
  ℕ, String, ℤ, pos, ◌+ℤ◌, fits_int, ◌+◌, ◌-◌, Bool, true, false, ◌&&◌, not, List, [], ◌∷◌, Option,
  none, some, ◌==◌, ltb, leb, elem, if◌then◌else◌, Fallible, ok, err, ◌>>=◌, ◌>>◌, guard, max,
}
use sqlxmq.Store.{Message, Payload, Database, int_out_of_range, time_out_of_range, update_where}
use sqlxmq.Store.Insert.{cast_json}

-- `attempt_at - commit_interval`, which a time before the earliest timestamp makes fail.
unfoldable pub commit_message : Message → Fallible Message
commit_message m = elim m.commit_interval [
  | none ↦ ok m
  | some c ↦ elim m.attempt_at [
    | none ↦ ok (record m { commit_interval = none })
    | some t ↦
        if leb c t
        then ok (record m { attempt_at = some (t - c); commit_interval = none })
        else err time_out_of_range
  ]
]

abbrev pub is_uncommitted : Message → Bool
is_uncommitted m = elim m.commit_interval [ none ↦ false | some _ ↦ true ]

-- mq_commit
unfoldable pub commit : List ℕ → Database → Fallible Database
unfolding commit_message update_where
commit ids db = do
  messages ← update_where (λ m. elem m.id ids && is_uncommitted m) commit_message db.messages
  ok (record db { messages = messages })

-- The SET of mq_keep_alive for a message that is due at `due`, before `target`.
abbrev extend : ℕ → ℕ → Message → Message
extend target due m = record m {
  attempt_at = some target;
  commit_interval = elim m.commit_interval [ none ↦ none | some c ↦ some (c + (target - due)) ];
}

-- `WHERE attempt_at < NOW() + duration`, which a NULL does not pass, and the SET.
unfoldable pub keep_message_alive : ℕ → Message → Message
keep_message_alive target m = elim m.attempt_at [
  | none ↦ m
  | some due ↦ if ltb due target then extend target due m else m
]

-- mq_keep_alive
unfoldable pub keep_alive : ℕ → List ℕ → ℕ → Database → Fallible Database
unfolding keep_message_alive update_where
keep_alive now ids duration db = do
  messages ←
      update_where (λ m. elem m.id ids) (λ m. ok (keep_message_alive (now + duration) m))
        db.messages
  ok (record db { messages = messages })

-- `GREATEST` passes over a NULL.
abbrev pub greatest : Option ℕ → ℕ → ℕ
greatest none t = t
greatest (some s) t = max s t

abbrev pub or_zero_int : Option ℤ → ℤ
or_zero_int none = pos 0
or_zero_int (some n) = n

unfoldable pub checkpoint_message : ℕ → Option ℤ → Message → Fallible Message
checkpoint_message target extra m = do
  guard (fits_int (m.attempts +ℤ or_zero_int extra)) int_out_of_range
  ok (record m {
    attempt_at = some (greatest m.attempt_at target);
    attempts = m.attempts +ℤ or_zero_int extra;
  })

-- `COALESCE`
abbrev pub or_else {ℓ} : {A : Type ℓ} → Option A → Option A → Option A
or_else none b = b
or_else (some a) b = some a

module _ (to_jsonb : String → Option String) where
  -- The second UPDATE of mq_checkpoint.
  unfoldable pub checkpoint_payload :
      ℕ → Option String → Option (List ℕ) → List Payload → Fallible (List Payload)
  checkpoint_payload id new_json new_bytes [] = ok []
  checkpoint_payload id new_json new_bytes (p ∷ ps) = do
    rest ← checkpoint_payload id new_json new_bytes ps
    p' ←
        if p.id == id
        then (do
          json ← cast_json to_jsonb new_json
          ok (record p {
            payload_json = or_else json p.payload_json;
            payload_bytes = or_else new_bytes p.payload_bytes;
          }))
        else ok p
    ok (p' ∷ rest)

  -- mq_checkpoint
  unfoldable pub checkpoint :
      ℕ → ℕ → ℕ → Option String → Option (List ℕ) → Option ℤ → Database → Fallible Database
  unfolding checkpoint_message update_where checkpoint_payload cast_json
  checkpoint now id duration new_json new_bytes extra db = do
    messages ←
        update_where (λ m. m.id == id) (checkpoint_message (now + duration) extra) db.messages
    payloads ← checkpoint_payload id new_json new_bytes db.payloads
    ok (record db { messages = messages; payloads = payloads })
