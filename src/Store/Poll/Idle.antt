-- ===== src/Store/Poll/Idle.antt =====
-- What a poll does where no message is ready, and the time that it says to wait.
use sqlxmq.Prelude.{
  ℕ, String, pos, ◌≤◌, ◌≡◌, refl, sym, ◌∙◌, inl, inr, Bool, true, false, ◌&&◌, List, [], ◌∷◌,
  Option, some, All, All-Memᴰ, Memᴰ, arith, ok, Option-cases, ltb, not-none-some, ap, Bool-cases,
}
use sqlxmq.Store.{Message, Database}
use sqlxmq.Store.Poll.{
  poll, claim, limit, select_messages, returned_rows, wait_row, claim_messages, is_ready,
  subscribes, earliest,
}
use sqlxmq.Store.Poll.Select.{Channel, Keeps, IsReadyId, select_messages-ready}

claim_messages-nil : (now : ℕ) (ms : List Message) → claim_messages now [] ms ≡ ok (ms, [])
unfolding claim_messages
claim_messages-nil now [] = refl
claim_messages-nil now (m ∷ ms) = rw (claim_messages-nil now ms) refl

none_selected :
    (now : ℕ) (names : Option (List String)) (ms sel : List Message)
    → All (λ m. (is_ready now m && subscribes names m) ≡ false) ms
    → All (λ m. IsReadyId now names ms m.id) sel
    → sel ≡ []
none_selected now names ms [] h ready = refl
none_selected now names ms (m ∷ sel) h ready =
    let (b, kb, _, r, s) = ready.0 in
    let no = All-Memᴰ (λ n. (is_ready now n && subscribes names n) ≡ false) ms h kb in
    absurd (both (is_ready now b) (subscribes names b) r s no)
  where
    both : (a b : Bool) → a ≡ true → b ≡ true → (a && b) ≡ false → ⊥
    both a b p q e = ground arith

pub poll_idle :
    (shuffle : List Channel → List Channel) (now : ℕ) (names : Option (List String)) (n : ℕ)
    (db : Database)
    → Keeps shuffle
    → All (λ m. (is_ready now m && subscribes names m) ≡ false) db.messages
    → poll shuffle now names (pos n) db ≡ ok (db, wait_row now names db.messages ∷ [])
unfolding poll limit claim returned_rows
poll_idle shuffle now names n db keeps h =
    let e =
      none_selected now names db.messages (select_messages shuffle names n now db.messages) h
        (select_messages-ready now names db.messages shuffle n keeps) in
    rw e (rw (claim_messages-nil now db.messages) refl)

-- The least time of the messages is there where one has a time, and is no later than that.
pub earliest-le :
    (ms : List Message) (m : Message) (t : ℕ)
    → Memᴰ m ms
    → m.attempt_at ≡ some t
    → (s : ℕ) × (earliest ms ≡ some s) × (s ≤ t)
unfolding earliest
earliest-le [] m t k h = elim k [ ]
earliest-le (n ∷ ms) m t (Memᴰ.head e) h =
    let first : n.attempt_at ≡ some t = ap (λ (x : Message). x.attempt_at) (sym e) ∙ h in
    elim (Option-cases (earliest ms)) [
      | inl p ↦ (t, rw (first, p) refl, omega arith)
      | inr (s, p) ↦ elim (Bool-cases (ltb s t)) [
        | inl l ↦ (s, rw (first, p, l) refl, ground arith)
        | inr l ↦ (t, rw (first, p, l) refl, omega arith)
      ]
    ]
earliest-le (n ∷ ms) m t (Memᴰ.tail k) h =
    let (s, p, q) = earliest-le ms m t k h in
    elim (Option-cases n.attempt_at) [
      | inl e ↦ (s, rw (e, p) refl, q)
      | inr (u, e) ↦ elim (Bool-cases (ltb s u)) [
        | inl l ↦ (s, rw (e, p, l) refl, q)
        | inr l ↦ (u, rw (e, p, l) refl, ground arith)
      ]
    ]

-- It is the time of one of them.
pub earliest-Memᴰ :
    (ms : List Message) (s : ℕ)
    → earliest ms ≡ some s
    → (m : Message) × Memᴰ m ms × (m.attempt_at ≡ some s)
unfolding earliest
earliest-Memᴰ [] s e = absurd (not-none-some e)
earliest-Memᴰ (n ∷ ms) s e = elim (Option-cases n.attempt_at) [
  | inl a ↦ let (m, k, p) = earliest-Memᴰ ms s (rw a at e) in (m, Memᴰ.tail k, p)
  | inr (t, a) ↦ elim (Option-cases (earliest ms)) [
    | inl r ↦ (n, Memᴰ.head refl, a ∙ (rw (a, r) at e))
    | inr (u, r) ↦ elim (Bool-cases (ltb u t)) [
      | inl l ↦ let (m, k, p) = earliest-Memᴰ ms s (r ∙ (rw (a, r, l) at e)) in (m, Memᴰ.tail k, p)
      | inr l ↦ (n, Memᴰ.head refl, a ∙ (rw (a, r, l) at e))
    ]
  ]
]
