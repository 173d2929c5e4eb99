-- ===== src/Runner/Poll/Wait.antt =====
-- How long the runner waits where nothing is to be done.
use sqlxmq.Prelude.{
  ℕ, String, pos, ◌+◌, ◌-◌, ◌≤◌, ◌<◌, ◌≡◌, refl, true, false, ◌&&◌, List, [], ◌∷◌, Option, none,
  some, All, All-Memᴰ, Memᴰ, filter-Memᴰ, Memᴰ-filter, Option-cases, ◌⊎◌, inl, inr, ap, ◌∙◌, filter,
  arith, ok,
}
use sqlxmq.Store.{Message, Database}
use sqlxmq.Store.Poll.{wait_row, is_ready, subscribes, earliest, is_waiting}
use sqlxmq.Store.Poll.Idle.{poll_idle, earliest-le, earliest-Memᴰ}
use sqlxmq.Store.Poll.Select.{Channel, Keeps}
use sqlxmq.Runner.{JobRunner}
use sqlxmq.Runner.Poll.{
  direct, poll_and_dispatch, delete_and_dispatch, dispatch_messages, ids_to_delete, dispatch_all,
  to_job, least_wait, max_wait, unwrap_or,
}
use sqlxmq.Runner.Poll.Duration.{to_duration-time_difference}

-- The wait that the row says.
abbrev wait_for : ℕ → Option (List String) → List Message → ℕ
unfolding least_wait wait_row
wait_for now names ms = unwrap_or (least_wait (wait_row now names ms ∷ [])) max_wait

idle_result :
    (shuffle : List Channel → List Channel) (now : ℕ) (r : JobRunner) (n : ℕ) (db : Database)
    → Keeps shuffle
    → All (λ m. (is_ready now m && subscribes r.options.channel_names m) ≡ false) db.messages
    → poll_and_dispatch (direct shuffle now) r (pos n) db ≡ record {
      database = db;
      runner = r;
      dispatched = [];
      wait = ok (wait_for now r.options.channel_names db.messages);
    }
unfolding poll_and_dispatch wait_for delete_and_dispatch dispatch_messages ids_to_delete
    dispatch_all to_job wait_row least_wait
idle_result shuffle now r n db keeps h =
    rw (poll_idle shuffle now r.options.channel_names n db keeps h, poll_and_dispatch) refl

wait_for-earliest :
    (now : ℕ) (names : Option (List String)) (ms : List Message) (s : ℕ)
    → earliest (filter (is_waiting names) ms) ≡ some s
    → wait_for now names ms ≡ s - now
unfolding wait_for least_wait wait_row
wait_for-earliest now names ms s e = rw e (to_duration-time_difference s now)

wait_for-none :
    (now : ℕ) (names : Option (List String)) (ms : List Message)
    → earliest (filter (is_waiting names) ms) ≡ none
    → wait_for now names ms ≡ max_wait
unfolding wait_for least_wait wait_row
wait_for-none now names ms e = rw e refl

-- The wait is the longest, or over as one of the messages that wait becomes due.
abbrev pub IsExact : ℕ → Option (List String) → List Message → ℕ → Type 0
IsExact now names ms w =
    (w ≡ max_wait)
    ⊎ ((m : Message) × Memᴰ m ms × (is_waiting names m ≡ true) × (m.attempt_at ≡ some (now + w)))

abbrev pub IsSoon : ℕ → Option (List String) → List Message → ℕ → Type 0
IsSoon now names ms w =
    (m : Message) (t : ℕ)
    → Memᴰ m ms
    → is_waiting names m ≡ true
    → m.attempt_at ≡ some t
    → now + w ≤ t

module _ (now : ℕ) (names : Option (List String)) (ms : List Message)
    (idle : All (λ m. (is_ready now m && subscribes names m) ≡ false) ms) where
  not_due :
      (m : Message) (t : ℕ)
      → Memᴰ m ms
      → is_waiting names m ≡ true
      → m.attempt_at ≡ some t
      → now < t
  not_due m t k waits at =
      let unready = All-Memᴰ (λ n. (is_ready now n && subscribes names n) ≡ false) ms idle k in
      ground arith

  wait_for-IsSoon : IsSoon now names ms (wait_for now names ms)
  wait_for-IsSoon m t k waits at =
      let (s, p, q) =
        earliest-le (filter (is_waiting names) ms) m t (filter-Memᴰ (is_waiting names) ms k waits)
          at in
      omega (arith, wait_for-earliest now names ms s p, not_due m t k waits at)

  wait_for-IsExact : IsExact now names ms (wait_for now names ms)
  wait_for-IsExact = elim (Option-cases (earliest (filter (is_waiting names) ms))) [
    | inl e ↦ inl (wait_for-none now names ms e)
    | inr (s, e) ↦
        let (m, k, at) = earliest-Memᴰ (filter (is_waiting names) ms) s e in
        let (km, waits) = Memᴰ-filter (is_waiting names) m ms k in
        inr (
          m,
          km,
          waits,
          at ∙ ap some (omega (arith, wait_for-earliest now names ms s e, not_due m s km waits at)),
        )
  ]

-- Where no message that it polls for is ready, a call of `poll_and_dispatch` leaves the tables and the
-- runner as they were and hands out no job. The wait that it returns is 60 seconds, or over as one of
-- the messages that it polls for and that follow no other becomes due, and over no later than any of
-- them does.
pub poll_and_dispatch_idle :
    (shuffle : List Channel → List Channel) (now : ℕ) (r : JobRunner) (n : ℕ) (db : Database)
    → Keeps shuffle
    → All (λ m. (is_ready now m && subscribes r.options.channel_names m) ≡ false) db.messages
    → (w : ℕ) × (poll_and_dispatch (direct shuffle now) r (pos n) db
        ≡ record { database = db; runner = r; dispatched = []; wait = ok w })
      × IsExact now r.options.channel_names db.messages w
      × IsSoon now r.options.channel_names db.messages w
poll_and_dispatch_idle shuffle now r n db keeps h =
    let names = r.options.channel_names in
    (
      wait_for now names db.messages,
      idle_result shuffle now r n db keeps h,
      wait_for-IsExact now names db.messages h,
      wait_for-IsSoon now names db.messages h,
    )
