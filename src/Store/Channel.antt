-- ===== src/Store/Channel.antt =====
-- The order of a channel, which mq_msgs keeps in the column `after_message_id`, as one sequence of
-- ids: who follows whom, told by a relation, and the sequence that it makes.
pub mod Append
pub mod Remove
pub mod Table
pub mod Left
pub mod Deleted
pub mod Heads
pub mod Latest
pub mod Spawned
pub mod Refine
pub mod Deliver
mod Examples
use sqlxmq.Prelude.{ℕ, String, ◌≡◌, ◌≢◌, List, [], ◌∷◌, none, some, Memᴰ, Pairwise}
use sqlxmq.Store.{Message, uuid_nil}

-- From `i` on each id is followed by the next one, and the last one by none.
pub data Chain (R : ℕ → ℕ → Type 0) : ℕ → List ℕ → Type 0 where
  last : {i : ℕ} → ((j : ℕ) → ¬ R i j) → Chain R i []
  link : {i j : ℕ} {ids : List ℕ} → R i j → Chain R j ids → Chain R i (j ∷ ids)

-- The sequence starts behind the nil message and leaves none out.
pub record IsSequence (R : ℕ → ℕ → Type 0) (ids : List ℕ) : Type 0 where
  pub chain : Chain R uuid_nil ids
  pub covers : (i j : ℕ) → R i j → Memᴰ j ids
  pub once : Pairwise (λ (i j : ℕ). i ≢ j) ids

abbrev pub InChannel : String → String → Message → Type 0
InChannel name args m = (m.channel_name ≡ name) × (m.channel_args ≡ args)

-- The channel has a message `j` that follows `i`.
pub record Follows (ms : List Message) (name args : String) (i j : ℕ) : Type 0 where
  pub message : Message
  pub member : Memᴰ message ms
  pub channel : InChannel name args message
  pub after : message.after_message_id ≡ some i
  pub same : message.id ≡ j

-- The ordered messages of the channel, the first one first.
abbrev pub IsQueue : List Message → String → String → List ℕ → Type 0
IsQueue ms name args ids = IsSequence (Follows ms name args) ids

abbrev pub last_or : ℕ → List ℕ → ℕ
last_or i [] = i
last_or i (j ∷ ids) = last_or j ids
