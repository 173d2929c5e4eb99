-- ===== src/Store/Poll/Concurrent.antt =====
-- Two transactions that poll at once, each with ids that it selected from a snapshot of its own.
use sqlxmq.Prelude.{
  ℕ, ◌+◌, ◌<◌, ◌≡◌, refl, sym, ◌∙◌, subst, List, [], ◌∷◌, map, Option, some, some_injective,
  not-none-some, All, ok, >>=-eq-ok, ok_injective, String,
}
use sqlxmq.Store.{Message, Payload, Database}
use sqlxmq.Store.Poll.{PolledMessage, claim, claim_messages, returned_rows, polled_row, wait_row}
use sqlxmq.Store.Poll.Claim.{Claims, Distinct, Without, claim_messages-Claims, Claims_disjoint}

-- What a claim returns, and the table that it leaves.
pub claim_inversion :
    (now : ℕ) (names : Option (List String)) (ids : List ℕ) (db db' : Database)
    (rows : List PolledMessage)
    → claim now names ids db ≡ ok (db', rows)
    → (claimed : List Message) × Claims now ids db.messages db'.messages claimed
      × (rows ≡ returned_rows now names db.payloads db'.messages claimed)
unfolding claim
claim_inversion now names ids db db' rows e =
    let (r, e₁, e₂) = >>=-eq-ok (claim_messages now ids db.messages) _ e in
    let c = claim_messages-Claims now ids db.messages r e₁ in
    (
      r.1,
      subst (λ (p : Database × List PolledMessage). Claims now ids db.messages p.0.messages r.1)
          (ok_injective e₂) c,
      subst
          (λ (p : Database × List PolledMessage).
            p.1 ≡ returned_rows now names db.payloads p.0.messages r.1)
          (ok_injective e₂) refl,
    )

-- Two rows for one message.
abbrev pub SameMessage : PolledMessage → PolledMessage → Type 0
SameMessage p q = (i : ℕ) × (p.id ≡ some i) × (q.id ≡ some i)

polled-apart :
    (ps qs : List Payload) (m : Message) (ns : List Message)
    → Without m.id ns
    → All (λ q. ¬ SameMessage (polled_row ps m) q) (map (polled_row qs) ns)
unfolding polled_row
polled-apart ps qs m [] w = tt
polled-apart ps qs m (n ∷ ns) w =
    ((λ h. w.0 (some_injective (h.2 ∙ sym h.1))), polled-apart ps qs m ns w.1)

returned-apart :
    (now : ℕ) (names : Option (List String)) (ps qs : List Payload) (m : Message)
    (ms ns : List Message)
    → Without m.id ns
    → All (λ q. ¬ SameMessage (polled_row ps m) q) (returned_rows now names qs ms ns)
unfolding returned_rows
returned-apart now names ps qs m ms [] w = ((λ h. not-none-some h.2), tt)
returned-apart now names ps qs m ms (n ∷ ns) w = polled-apart ps qs m (n ∷ ns) w

All-apart :
    (now : ℕ) (names : Option (List String)) (ps qs : List Payload) (ms ns claimed : List Message)
    → All (λ m. Without m.id ns) claimed
    → All
        (λ p. All (λ q. ¬ SameMessage p q) (returned_rows now names qs ms ns))
        (map (polled_row ps) claimed)
All-apart now names ps qs ms ns [] h = tt
All-apart now names ps qs ms ns (m ∷ claimed) h =
    (returned-apart now names ps qs m ms ns h.0, All-apart now names ps qs ms ns claimed h.1)

wait_row-apart :
    (now : ℕ) (names : Option (List String)) (ms : List Message) (rows : List PolledMessage)
    → All (λ q. ¬ SameMessage (wait_row now names ms) q) rows
unfolding wait_row
wait_row-apart now names ms [] = tt
wait_row-apart now names ms (q ∷ rows) =
    ((λ h. not-none-some h.1), wait_row-apart now names ms rows)

first-apart :
    (now later : ℕ) (names₁ names₂ : Option (List String)) (ps qs : List Payload)
    (ms mid ns claimed : List Message)
    → All (λ m. Without m.id ns) claimed
    → All
        (λ p. All (λ q. ¬ SameMessage p q) (returned_rows later names₂ qs ms ns))
        (returned_rows now names₁ ps mid claimed)
unfolding returned_rows
first-apart now later names₁ names₂ ps qs ms mid ns [] h =
    (wait_row-apart now names₁ mid (returned_rows later names₂ qs ms ns), tt)
first-apart now later names₁ names₂ ps qs ms mid ns (m ∷ claimed) h =
    All-apart later names₂ ps qs ms ns (m ∷ claimed) h

-- Where no two messages have one id: two polls, each with whatever ids it selected from a snapshot
-- of its own, the second before the backoff of any message has passed since the time of the first,
-- return no message both.
pub claim_disjoint :
    (now later : ℕ) (names₁ names₂ : Option (List String)) (ids₁ ids₂ : List ℕ)
    (db db₁ db₂ : Database) (rows₁ rows₂ : List PolledMessage)
    → Distinct db.messages
    → All (λ m. later < now + m.retry_backoff) db.messages
    → claim now names₁ ids₁ db ≡ ok (db₁, rows₁)
    → claim later names₂ ids₂ db₁ ≡ ok (db₂, rows₂)
    → All (λ p. All (λ q. ¬ SameMessage p q) rows₂) rows₁
claim_disjoint now later names₁ names₂ ids₁ ids₂ db db₁ db₂ rows₁ rows₂ d f e₁ e₂ =
    let (claimed₁, c₁, p₁) = claim_inversion now names₁ ids₁ db db₁ rows₁ e₁ in
    let (claimed₂, c₂, p₂) = claim_inversion later names₂ ids₂ db₁ db₂ rows₂ e₂ in
    rw (p₁, p₂)
      (first-apart now later names₁ names₂ db.payloads db₁.payloads db₂.messages db₁.messages
        claimed₂ claimed₁ (Claims_disjoint c₁ c₂ d f))
