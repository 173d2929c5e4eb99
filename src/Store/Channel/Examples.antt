-- ===== src/Store/Channel/Examples.antt =====
-- The order of a channel with two jobs, the first of which is then deleted.
use sqlxmq.Prelude.{
  ℕ, ◌+ℤ◌, ◌-ℤ◌, as_i32, pos, ◌≡◌, refl, sym, not-none-some, Memᴰ, List, [], ◌∷◌, none,
}
use sqlxmq.Store.{Database}
use sqlxmq.Store.Insert.{latest_message}
use sqlxmq.Store.Remove.{delete}
use sqlxmq.Store.Reach.{Reach, next, deleted, empty_queue}
use sqlxmq.Store.Examples.{
  any_json, as_listed, as_listed-Keeps, or_start, two_jobs, two_jobs-Reach, polled_jobs,
  first_message,
}
use sqlxmq.Store.Channel.{IsQueue}
use sqlxmq.Store.Channel.Refine.{queue_after, Reach-IsQueue}
use sqlxmq.Store.Channel.Deliver.{delivered_first}

two_in_order : queue_after "foo" "" two_jobs-Reach ≡ 1 ∷ 2 ∷ []
unfolding two_jobs-Reach
two_in_order = refl

abbrev one_left : Database
unfolding two_jobs delete
one_left = or_start (delete (1 ∷ []) two_jobs) (empty_queue 0)

one_left-Reach : Reach any_json (empty_queue 0) one_left
unfolding one_left ◌+ℤ◌ as_i32 latest_message
one_left-Reach = next two_jobs-Reach (deleted (1 ∷ []) refl refl)

second_left : queue_after "foo" "" one_left-Reach ≡ 2 ∷ []
unfolding one_left-Reach two_jobs-Reach
second_left = refl

Reach-IsQueue_example : IsQueue one_left.messages "foo" "" (2 ∷ [])
unfolding one_left-Reach two_jobs-Reach
Reach-IsQueue_example = Reach-IsQueue "foo" "" one_left-Reach

delivered_first_example : (rest : List ℕ) × (queue_after "foo" "" two_jobs-Reach ≡ 1 ∷ rest)
unfolding polled_jobs ◌+ℤ◌ as_i32 latest_message ◌-ℤ◌
delivered_first_example =
    delivered_first two_jobs-Reach as_listed 30 none (pos 5) polled_jobs.0 polled_jobs.1
      first_message as_listed-Keeps refl (Memᴰ.tail (Memᴰ.head refl)) (_, Memᴰ.head refl, refl)
      (λ e. not-none-some (sym e))
