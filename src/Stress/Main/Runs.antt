-- ===== src/Stress/Main/Runs.antt =====
-- The runs of the stress program whose jobs all start and end.
use sqlxmq.Prelude.{
  ℕ, String, suc, ◌+◌, ◌-◌, ◌≤◌, ◌≡◌, ◌≢◌, refl, sym, ap, ◌⊎◌, inl, inr, List, [], ◌∷◌, Option,
  some, All, All-map, All-Memᴰ, Memᴰ, Pairwise, length, arith,
}
use sqlxmq.Runner.{CurrentJob}
use sqlxmq.Stress.{Start}
use sqlxmq.Stress.Main.{RunEvent, started, claimed, kept_alive, ended}

-- The second list is the first without one entry.
pub data Taken (s : Start) : List Start → List Start → Type 0 where
  first : {xs : List Start} → Taken s (s ∷ xs) xs
  later : {x : Start} {xs ys : List Start} → Taken s xs ys → Taken s (x ∷ xs) (x ∷ ys)

-- The job that a poll makes of the message of a start, and a reading of the clock that is no earlier.
pub record Ends (from_str : String → Option ℕ) (s : Start) (job : CurrentJob) (end_time : ℕ)
    : Type 0 where
  pub text : String
  pub same_id : job.id ≡ s.drawn
  pub payload : job.payload_json ≡ some text
  pub reads : from_str text ≡ some s.elapsed
  pub in_order : s.elapsed ≤ end_time

-- A run from where the jobs of some starts are in the queue and others are still to start, in which
-- all start and end, each job once, with the time that each of them takes, in the order of their ends.
pub data Runs (from_str : String → Option ℕ)
    : List Start → List Start → List RunEvent → List ℕ → Type 0 where
  over : Runs from_str [] [] [] []
  starts :
      {s : Start} {live todo : List Start} {events : List RunEvent} {times : List ℕ}
      → Runs from_str (s ∷ live) todo events times
      → Runs from_str live (s ∷ todo) (started s ∷ events) times
  polls :
      {now : ℕ} {names : Option (List String)} {ids : List ℕ} {live todo : List Start}
      {events : List RunEvent} {times : List ℕ}
      → Runs from_str live todo events times
      → Runs from_str live todo (claimed now names ids ∷ events) times
  keeps :
      {now : ℕ} {ids : List ℕ} {duration : ℕ} {live todo : List Start} {events : List RunEvent}
      {times : List ℕ}
      → Runs from_str live todo events times
      → Runs from_str live todo (kept_alive now ids duration ∷ events) times
  ends :
      {s : Start} {job : CurrentJob} {end_time : ℕ} {live rest todo : List Start}
      {events : List RunEvent} {times : List ℕ}
      → Taken s live rest
      → Ends from_str s job end_time
      → Runs from_str rest todo events times
      → Runs from_str live todo (ended job end_time ∷ events) ((end_time - s.elapsed) ∷ times)

Taken-length : {s : Start} {xs ys : List Start} → Taken s xs ys → length xs ≡ suc (length ys)
Taken-length first = refl
Taken-length (later t) = ap suc (Taken-length t)

pub Runs-length :
    {from_str : String → Option ℕ} {live todo : List Start} {events : List RunEvent}
    {times : List ℕ}
    → Runs from_str live todo events times
    → length times ≡ length live + length todo
Runs-length over = refl
Runs-length (starts r) = omega (arith, Runs-length r)
Runs-length (polls r) = Runs-length r
Runs-length (keeps r) = Runs-length r
Runs-length (ends t e r) = omega (arith, Runs-length r, Taken-length t)

pub Taken-Memᴰ : {s : Start} {xs ys : List Start} → Taken s xs ys → Memᴰ s xs
Taken-Memᴰ first = Memᴰ.head refl
Taken-Memᴰ (later t) = Memᴰ.tail (Taken-Memᴰ t)

pub Taken-split :
    {s : Start} {xs ys : List Start} (x : Start) → Taken s xs ys → Memᴰ x xs → (x ≡ s) ⊎ Memᴰ x ys
Taken-split x first (Memᴰ.head e) = inl e
Taken-split x first (Memᴰ.tail k) = inr k
Taken-split x (later t) (Memᴰ.head e) = inr (Memᴰ.head e)
Taken-split x (later t) (Memᴰ.tail k) = elim (Taken-split x t k) [
  | inl e ↦ inl e
  | inr m ↦ inr (Memᴰ.tail m)
]

pub Taken-All :
    (P : Start → Type 0) {s : Start} {xs ys : List Start} → Taken s xs ys → All P xs → All P ys
Taken-All P first h = h.1
Taken-All P (later t) h = (h.0, Taken-All P t h.1)

-- Ids that differ.
abbrev pub Apart : Start → Start → Type 0
Apart s t = s.drawn ≢ t.drawn

pub Taken-Pairwise :
    {s : Start} {xs ys : List Start} → Taken s xs ys → Pairwise Apart xs → Pairwise Apart ys
Taken-Pairwise first h = h.1
Taken-Pairwise (later {x} t) h = (Taken-All (Apart x) t h.0, Taken-Pairwise t h.1)

pub Taken-apart :
    {s : Start} {xs ys : List Start}
    → Taken s xs ys
    → Pairwise Apart xs
    → All (λ t. t.drawn ≢ s.drawn) ys
Taken-apart {s} {xs} {ys} first h = All-map ys (λ t ne z. ne (sym z)) h.0
Taken-apart {s} (later {x} t) h =
    (All-Memᴰ (λ (y : Start). x.drawn ≢ y.drawn) _ h.0 (Taken-Memᴰ t), Taken-apart t h.1)
