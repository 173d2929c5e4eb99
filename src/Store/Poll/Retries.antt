-- ===== src/Store/Poll/Retries.antt =====
-- How often a message is polled, and when.
use native.Mathlib.Nat.{pow-suc}
use sqlxmq.Prelude.{
  ℕ, zero, suc, pos, pos_part, neg_part, ◌-ℤ◌, ◌+ℤ◌, ◌+◌, ◌-◌, ◌*◌, ◌^◌, ◌≤◌, ◌<◌, ◌≡◌, refl, ap,
  ◌∙◌, List, [], ◌∷◌, ◌++◌, none, some, ◌==◌, length, arith, Fallible, ok, ◌>>=◌, if◌then◌else◌,
}
use sqlxmq.Store.{Message}
use sqlxmq.Store.Schedule.{checkpoint_message}
use sqlxmq.Store.Poll.{claim_message}

-- What the polls at these times make of the row of a message that they claim.
pub claims : List ℕ → Message → Fallible Message
claims [] m = ok m
claims (t ∷ ts) m = do m' ← claim_message t m; claims ts m'

double_pow : (b k : ℕ) → b * 2 * 2 ^ k ≡ b * 2 ^ suc k
double_pow b k = omega (arith, ap (λ (x : ℕ). b * x) (pow-suc 2 k))

-- A message with attempts left, after a poll at `t`.
abbrev after_poll : ℕ → ℕ → Message → Message
after_poll t n m = record m {
  attempt_at = if suc n == 1 then none else some (t + m.retry_backoff);
  attempts = pos n;
  retry_backoff = m.retry_backoff * 2;
}

claim_message-ok :
    (t n : ℕ) (m : Message)
    → m.attempts ≡ pos (suc n)
    → n < 2147483647
    → claim_message t m ≡ ok (after_poll t n m)
unfolding claim_message ◌-ℤ◌
claim_message-ok t n m a h = ground arith

-- After polls that claim a message of `n` attempts, at any times and no more than `n` of them, with
-- no other call on it between them: it is due again a backoff after the last poll, its backoff
-- doubled by each poll before that; but after the n-th poll its time is NULL, so it is never due.
pub claims_schedule :
    (ts : List ℕ) (t n : ℕ) (m : Message)
    → m.attempts ≡ pos n
    → length ts < n
    → n ≤ 2147483647
    → claims (ts ++ t ∷ []) m
      ≡ ok (record m {
        attempt_at =
            if suc (length ts) == n then none else some (t + m.retry_backoff * 2 ^ length ts);
        attempts = pos (n - suc (length ts));
        retry_backoff = m.retry_backoff * 2 ^ suc (length ts);
      })
unfolding claims
claims_schedule ts t zero m a h b = absurd (omega arith)
claims_schedule [] t (suc n) m a h b = rw (claim_message-ok t n m a (omega arith)) (ground arith)
claims_schedule (s ∷ ts) t (suc n) m a h b = rw (claim_message-ok s n m a (omega arith)) (
    claims_schedule ts t n (after_poll s n m) refl (omega arith) (omega arith)
    ∙ ground (
      arith,
      double_pow m.retry_backoff (length ts),
      double_pow m.retry_backoff (suc (length ts)),
    ))

-- A message with no attempts left.
abbrev pub IsExhausted : Message → Type 0
IsExhausted m = pos_part m.attempts ≡ 0

claim_message-IsExhausted :
    (t : ℕ) (m : Message)
    → IsExhausted m
    → neg_part m.attempts < 2147483648
    → (m' : Message) × (claim_message t m ≡ ok m')
      × (m'.attempt_at ≡ some (t + m.retry_backoff))
      × IsExhausted m'
      × (neg_part m'.attempts ≡ suc (neg_part m.attempts))
unfolding claim_message ◌-ℤ◌
claim_message-IsExhausted t m a h = (
  record m {
    attempt_at = some (t + m.retry_backoff);
    attempts = m.attempts -ℤ pos 1;
    retry_backoff = m.retry_backoff * 2;
  },
  ground arith,
  refl,
  ground arith,
  ground arith,
)

-- A message with no attempts left that has a time to be due at, polled so many times, still has one.
claims-IsExhausted :
    (ts : List ℕ) (m : Message)
    → IsExhausted m
    → neg_part m.attempts + length ts ≤ 2147483648
    → (u : ℕ) × (m.attempt_at ≡ some u)
    → (m' : Message) × (claims ts m ≡ ok m') × (u : ℕ) × (m'.attempt_at ≡ some u)
unfolding claims
claims-IsExhausted [] m a h due = (m, refl, due.0, due.1)
claims-IsExhausted (t ∷ ts) m a h due =
    let (m₁, e, d, x, n) = claim_message-IsExhausted t m a (omega arith) in
    let (m₂, e', u, q) = claims-IsExhausted ts m₁ x (omega arith) (t + m.retry_backoff, d) in
    (m₂, rw e e', u, q)

-- A checkpoint with no extra retries, at the last attempt of a message, which no poll finds due any
-- more, makes it due again; and it goes on being due after each of the next two thousand million
-- polls, since its attempts pass the value 1 no more.
pub checkpoint_revives :
    (target : ℕ) (ts : List ℕ) (m : Message)
    → m.attempt_at ≡ none
    → m.attempts ≡ pos 0
    → length ts ≤ 2147483648
    → (m₁ m₂ : Message) × (checkpoint_message target (some (pos 0)) m ≡ ok m₁)
      × (claims ts m₁ ≡ ok m₂)
      × (u : ℕ) × (m₂.attempt_at ≡ some u)
unfolding checkpoint_message ◌+ℤ◌
checkpoint_revives target ts m d a h =
    let m₁ = record m { attempt_at = some target; attempts = pos 0 } in
    let (m₂, e, u, q) = claims-IsExhausted ts m₁ refl (omega arith) (target, refl) in
    (m₁, m₂, ground arith, e, u, q)
