-- ===== src/Scenarios/Attempts.antt =====
-- The attempts that a job in a test has.
use sqlxmq.Prelude.{
  ℕ, zero, suc, pos, ◌-ℤ◌, ◌⊎◌, ◌+◌, ◌*◌, ◌≤◌, ◌<◌, ◌≡◌, refl, false, ◌&&◌, List, [], ◌∷◌, ◌++◌,
  none, some, ◌==◌, leb, arith, ok, length, if◌then◌else◌,
}
use sqlxmq.Store.{Message, uuid_nil}
use sqlxmq.Store.Poll.{claim_message, is_ready, subscribes}

-- How often rounds at these times run a job that has so many attempts, the first at `due`, and the
-- backoff `b` from then on: the first round that is not before `due` runs it.
unfoldable pub runs : ℕ → ℕ → ℕ → List ℕ → ℕ
runs zero due b times = 0
runs (suc n) due b [] = 0
runs (suc n) due b (now ∷ times) =
    let ran = suc (runs n (now + b) (b * 2) times) in
    let later = runs (suc n) due b times in if leb due now then ran else later

-- The row of the job, with attempts left or none.
abbrev pub waiting : Message → ℕ → ℕ → ℕ → Message
waiting m n due b = record m {
  attempt_at = if n == 0 then none else some due;
  attempts = pos n;
  retry_backoff = b;
}

pub claim_message-waiting :
    (m : Message) (n due b now : ℕ)
    → n < 2147483647
    → claim_message now (waiting m (suc n) due b) ≡ ok (waiting m n (now + b) (b * 2))
unfolding claim_message ◌-ℤ◌
claim_message-waiting m n due b now h = ground arith

pub not_ready :
    (m : Message) (n due b now : ℕ)
    → (n ≡ 0) ⊎ (now < due)
    → (is_ready now (waiting m n due b) && subscribes none m) ≡ false
not_ready m n due b now h = ground arith

pub nil_not_ready :
    (now : ℕ) (z : Message) → z.id ≡ uuid_nil → (is_ready now z && subscribes none z) ≡ false
nil_not_ready now z e = ground arith

pub runs-le : (n due b : ℕ) (times : List ℕ) → runs n due b times ≤ n
unfolding runs
runs-le zero due b times = omega arith
runs-le (suc n) due b [] = omega arith
runs-le (suc n) due b (now ∷ times) =
    ground (arith, runs-le n (now + b) (b * 2) times, runs-le (suc n) due b times)

-- Each time is no earlier than the one before it and the backoff by then.
abbrev pub IsSpaced : ℕ → ℕ → List ℕ → Type 0
IsSpaced due b [] = Unit
IsSpaced due b (now ∷ times) = (due ≤ now) × IsSpaced (now + b) (b * 2) times

pub runs-IsSpaced :
    (n due b : ℕ) (times more : List ℕ)
    → IsSpaced due b times
    → length times ≡ n
    → runs n due b (times ++ more) ≡ n
unfolding runs
runs-IsSpaced zero due b times more s e = refl
runs-IsSpaced (suc n) due b [] more s e = absurd (omega (arith, e))
runs-IsSpaced (suc n) due b (now ∷ times) more s e =
    ground (arith, s.0, runs-IsSpaced n (now + b) (b * 2) times more s.1 (omega (arith, e)))
