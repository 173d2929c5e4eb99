-- ===== src/Scenarios/Single.antt =====
-- A poll where the tables hold one message beside the nil message.
use sqlxmq.Prelude.{
  ℕ, String, pos, ◌≤◌, ◌≡◌, ◌≢◌, refl, true, false, List, [], ◌∷◌, none, some, ◌==◌, ==_iff,
  str_eq_iff, arith, ok,
}
use sqlxmq.Store.{Message, Payload, Database, uuid_nil, uuid_exists, in_channel}
use sqlxmq.Store.Poll.{
  poll, limit, claim, select_messages, active_channels, channels, channel_messages, sort_by_time,
  insert_by_time, claim_messages, claim_message, returned_rows, polled_row, is_ready, is_due,
  is_claimed,
}
use sqlxmq.Store.Poll.Select.{Channel}

abbrev pub alone : Message → Message → Payload → List String → Database
alone z m p sent = record { messages = m ∷ z ∷ []; payloads = p ∷ []; notified = sent }

-- A message that a poll at `now` may return, with a due time.
abbrev pub IsDue : ℕ → Message → Type 0
IsDue now m = (t : ℕ) × (m.attempt_at ≡ some t) × (t ≤ now)

in_own_channel : (m : Message) → in_channel m.channel_name m.channel_args m ≡ true
in_own_channel m =
    ground
      (arith, str_eq_iff m.channel_name m.channel_name, str_eq_iff m.channel_args m.channel_args)

ready :
    (now : ℕ) (m : Message)
    → m.id ≢ uuid_nil
    → uuid_exists m.after_message_id ≡ false
    → IsDue now m
    → is_ready now m ≡ true
ready now m n a (t, e, h) = rw (e, a) (ground arith)

nil_unready : (now : ℕ) (z : Message) → z.id ≡ uuid_nil → is_ready now z ≡ false
nil_unready now z e = rw e refl

module _ (shuffle : List Channel → List Channel) (only : (c : Channel) → shuffle (c ∷ []) ≡ c ∷ [])
    (z : Message) (is_nil : z.id ≡ uuid_nil) where
  select_alone :
      (now : ℕ) (m : Message)
      → is_ready now m ≡ true
      → select_messages shuffle none 32 now (m ∷ z ∷ []) ≡ m ∷ []
  unfolding select_messages active_channels channels channel_messages sort_by_time insert_by_time
  select_alone now m r =
      rw (r, nil_unready now z is_nil, only (m.channel_name, m.channel_args), in_own_channel m)
        (rw (r, nil_unready now z is_nil) refl)

  claim_alone :
      (now : ℕ) (m m' : Message)
      → m.id ≢ uuid_nil
      → is_due now m ≡ true
      → claim_message now m ≡ ok m'
      → claim_messages now (m.id ∷ []) (m ∷ z ∷ []) ≡ ok (m' ∷ z ∷ [], m' ∷ [])
  unfolding claim_messages
  claim_alone now m m' n d e =
      let other = nil_other m n in let claimed = own now m d in rw (other, claimed) (rw e refl)
    where
      own : (now : ℕ) (m : Message) → is_due now m ≡ true → is_claimed now (m.id ∷ []) m ≡ true
      own now m d = rw d (ground (arith, ==_iff m.id m.id))

      nil_other : (m : Message) → m.id ≢ uuid_nil → (m.id == z.id) ≡ false
      nil_other m n = rw is_nil (ground (arith, ==_iff m.id uuid_nil))

  -- The message is claimed and returned.
  pub poll_alone :
      (now : ℕ) (m m' : Message) (p : Payload) (sent : List String)
      → m.id ≢ uuid_nil
      → uuid_exists m.after_message_id ≡ false
      → IsDue now m
      → claim_message now m ≡ ok m'
      → poll shuffle now none (pos 32) (alone z m p sent)
        ≡ ok (alone z m' p sent, polled_row (p ∷ []) m' ∷ [])
  unfolding poll limit claim returned_rows
  poll_alone now m m' p sent n a due e =
      rw (select_alone now m (ready now m n a due))
        (rw (claim_alone now m m' n (due_now now m due) e) refl)
    where
      due_now : (now : ℕ) (m : Message) → IsDue now m → is_due now m ≡ true
      due_now now m (t, at, h) = rw at (ground arith)
