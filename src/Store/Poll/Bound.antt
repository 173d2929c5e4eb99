-- ===== src/Store/Poll/Bound.antt =====
-- How many messages a poll returns.
use sqlxmq.Prelude.{
  ℕ, String, pos, ◌+◌, ◌≤◌, ◌≡◌, refl, inl, inr, true, false, List, [], ◌∷◌, map, Option, none,
  some, ◌==◌, elem, filter, length, length-take_le, arith, Bool-cases, ok,
}
use sqlxmq.Store.{Message, Payload, Database}
use sqlxmq.Store.Poll.{
  PolledMessage, select_messages, poll, limit, polled_row, wait_row, returned_rows,
}
use sqlxmq.Store.Poll.Claim.{Claims, Distinct, Without}
use sqlxmq.Store.Poll.Concurrent.{claim_inversion}

abbrev with_id : ℕ → List Message → List Message
with_id i = filter λ m. m.id == i

abbrev among : List ℕ → List Message → List Message
among ids = filter λ m. elem m.id ids

length-with_id_zero : (i : ℕ) (ms : List Message) → Without i ms → length (with_id i ms) ≡ 0
length-with_id_zero i [] w = refl
length-with_id_zero i (m ∷ ms) w = ground (arith, length-with_id_zero i ms w.1)

length-with_id_le : (i : ℕ) (ms : List Message) → Distinct ms → length (with_id i ms) ≤ 1
length-with_id_le i [] d = omega arith
length-with_id_le i (m ∷ ms) d = elim (Bool-cases (m.id == i)) [
  | inl e ↦
      let same : m.id ≡ i = ground arith in
      rw e (omega (arith, length-with_id_zero i ms (rw same at d.0)))
  | inr e ↦ rw e (length-with_id_le i ms d.1)
]

length-among_cons :
    (i : ℕ) (ids : List ℕ) (ms : List Message)
    → length (among (i ∷ ids) ms) ≤ length (with_id i ms) + length (among ids ms)
length-among_cons i ids [] = omega arith
length-among_cons i ids (m ∷ ms) = ground (arith, length-among_cons i ids ms)

length-among_le :
    (ids : List ℕ) (ms : List Message) → Distinct ms → length (among ids ms) ≤ length ids
length-among_le [] ms d = none_among ms
  where
    none_among : (ms : List Message) → length (among [] ms) ≤ 0
    none_among [] = omega arith
    none_among (m ∷ ms) = none_among ms
length-among_le (i ∷ ids) ms d =
    omega (arith, length-among_cons i ids ms, length-with_id_le i ms d, length-among_le ids ms d)

length-claimed_le :
    {now : ℕ} {ids : List ℕ} {ms old claimed : List Message}
    → Claims now ids ms old claimed
    → length claimed ≤ length (among ids ms)
length-claimed_le Claims.done = omega arith
length-claimed_le (Claims.take {m} hit e c) = ground (arith, length-claimed_le c)
length-claimed_le (Claims.pass {m} miss c) = ground (arith, length-claimed_le c)

-- The rows that stand for a message.
abbrev pub message_rows : List PolledMessage → List PolledMessage
message_rows = filter λ p. elim p.id [ none ↦ false | some _ ↦ true ]

length-map_id : (ms : List Message) → length (map (λ (m : Message). m.id) ms) ≡ length ms
length-map_id [] = refl
length-map_id (m ∷ ms) = omega (arith, length-map_id ms)

message_rows-map :
    (ps : List Payload) (ms : List Message)
    → length (message_rows (map (polled_row ps) ms)) ≡ length ms
unfolding polled_row
message_rows-map ps [] = refl
message_rows-map ps (m ∷ ms) = omega (arith, message_rows-map ps ms)

pub length-message_rows :
    (now : ℕ) (names : Option (List String)) (ps : List Payload) (ms claimed : List Message)
    → length (message_rows (returned_rows now names ps ms claimed)) ≡ length claimed
unfolding returned_rows wait_row
length-message_rows now names ps ms [] = refl
length-message_rows now names ps ms (m ∷ claimed) = message_rows-map ps (m ∷ claimed)

length-select_messages :
    (shuffle : List (String × String) → List (String × String)) (names : Option (List String))
    (batch now : ℕ) (ms : List Message)
    → length (select_messages shuffle names batch now ms) ≤ batch
unfolding select_messages
length-select_messages shuffle names batch now ms = length-take_le batch _

-- Where no two messages have one id, a poll with a batch size returns at most that many messages,
-- whatever order the channels are taken in.
pub poll_bounded :
    (shuffle : List (String × String) → List (String × String)) (now : ℕ)
    (names : Option (List String)) (n : ℕ) (db db' : Database) (rows : List PolledMessage)
    → Distinct db.messages
    → poll shuffle now names (pos n) db ≡ ok (db', rows)
    → length (message_rows rows) ≤ n
unfolding poll limit
poll_bounded shuffle now names n db db' rows d e =
    let sel = select_messages shuffle names n now db.messages in
    let ids = map (λ (m : Message). m.id) sel in
    let (claimed, c, p) = claim_inversion now names ids db db' rows e in
    rw p (
      omega (
        arith,
        length-message_rows now names db.payloads db'.messages claimed,
        length-claimed_le c,
        length-among_le ids db.messages d,
        length-map_id sel,
        length-select_messages shuffle names n now db.messages,
      ))
