-- ===== src/Tasks.antt =====
-- src/utils.rs: the handle that aborts its task when it is dropped. A task is known by a number; what
-- a call does to tasks is the list of the calls on tokio's JoinHandle that it makes, in order.
mod Examples
pub mod Handle
use sqlxmq.Prelude.{ℕ, List, [], ◌∷◌, ◌++◌, Option, none, some}

pub data Event : Type 0 where
  aborted : ℕ → Event
  awaited : ℕ → Event

-- `OwnedHandle`, around `Option<JoinHandle<()>>`.
pub record OwnedHandle : Type 0 where
  pub inner : Option ℕ

unfoldable pub new : ℕ → OwnedHandle
new task = record { inner = some task }

-- `Drop`
unfoldable pub drop : OwnedHandle → List Event
drop handle = elim handle.inner [ none ↦ [] | some task ↦ aborted task ∷ [] ]

-- `into_inner`, which takes the handle out of `self` and then drops `self`: none where it panics.
unfoldable pub into_inner : OwnedHandle → Option (ℕ × List Event)
unfolding drop
into_inner handle = elim handle.inner [
  | none ↦ none
  | some task ↦ some (task, drop (record { inner = none }))
]

unfoldable pub stop : OwnedHandle → Option (List Event)
unfolding into_inner
stop handle = elim (into_inner handle) [
  | none ↦ none
  | some (task, events) ↦ some (events ++ aborted task ∷ awaited task ∷ [])
]
