-- ===== src/Spawn/Errors.antt =====
-- Why `spawn` fails, and which of its errors `should_retry` takes for worth a retry.
use mathlib.Core.Bool.{false≢true}
use sqlxmq.Prelude.{
  ℕ, String, ◌≡◌, refl, sym, ◌∙◌, ◌⊎◌, inl, inr, Bool, true, false, List, [], ◌∷◌, Option, none,
  some, ◌==◌, any, arith, ok, err, SqlxError, Option-cases, Bool-cases, subst, >>=-eq-err,
  err_injective, not-ok-err, guard-err, guard, ◌>>◌, not, >>=-eq-ok, ok_injective, ap,
}
use sqlxmq.Store.{Message, Payload, Database, conflicts, has_dangling}
use sqlxmq.Store.Insert.{
  NewMessage, insert_seeing, insert_payloads, insert_payload, cast_json, insert_messages,
  insert_message, message_row,
}
use sqlxmq.Retry.{should_retry, retryable}
use sqlxmq.Spawn.{JobBuilder, bind_message, spawn_seeing}

abbrev IsFinal : SqlxError → Type 0
IsFinal x = should_retry x ≡ false

module _ (to_jsonb : String → Option String) where
  cast_json_error : (o : Option String) (x : SqlxError) → cast_json to_jsonb o ≡ err x → IsFinal x
  unfolding cast_json should_retry retryable
  cast_json_error none x e = absurd (not-ok-err e)
  cast_json_error (some text) x e = elim (Option-cases (to_jsonb text)) [
    | inl q ↦ subst IsFinal (err_injective {A = Option String} (rw (q, cast_json) at e)) refl
    | inr (j, q) ↦ absurd (not-ok-err {A = Option String} (rw (q, cast_json) at e))
  ]

  insert_payload_error :
      (new : NewMessage) (ps : List Payload) (x : SqlxError)
      → insert_payload to_jsonb new ps ≡ err x
      → IsFinal x
  unfolding insert_payload should_retry retryable
  insert_payload_error new ps x e = elim (>>=-eq-err (cast_json to_jsonb new.payload_json) _ e) [
    | inl p ↦ cast_json_error new.payload_json x p
    | inr (j, _, q) ↦ subst IsFinal (guard-err _ _ q) refl
  ]

  insert_payloads_error :
      (new : NewMessage) (ps : List Payload) (x : SqlxError)
      → insert_payloads to_jsonb (new ∷ []) ps ≡ err x
      → IsFinal x
  unfolding insert_payloads
  insert_payloads_error new ps x e = elim (>>=-eq-err (insert_payload to_jsonb new ps) _ e) [
    | inl p ↦ insert_payload_error new ps x p
    | inr (ps', _, q) ↦ absurd (not-ok-err q)
  ]

message_row_error :
    (now : ℕ) (news : List NewMessage) (ms : List Message) (new : NewMessage) (x : SqlxError)
    → message_row now news ms new ≡ err x
    → IsFinal x
unfolding message_row should_retry retryable
message_row_error now news ms new x e = subst IsFinal (guard-err _ _ e) refl

-- The row had the place of another in the order of its channel.
insert_message_error :
    (r : Message) (ms : List Message) (x : SqlxError)
    → insert_message r ms ≡ err x
    → should_retry x ≡ true
    → (any (λ n. n.id == r.id) ms ≡ false) × (any (conflicts r) ms ≡ true)
unfolding insert_message should_retry retryable
insert_message_error r ms x e h = elim (Bool-cases (any (λ n. n.id == r.id) ms)) [
  | inl taken ↦ absurd (
      false≢true (
        subst (λ y. false ≡ should_retry y) (err_injective {A = List Message} (rw taken at e)) refl
        ∙ h))
  | inr free ↦ (free, ground arith)
]

insert_message-ok :
    (r : Message) (ms ms' : List Message)
    → insert_message r ms ≡ ok ms'
    → (any (λ n. n.id == r.id) ms ≡ false) × (ms' ≡ r ∷ ms)
unfolding insert_message
insert_message-ok r ms ms' e = ground arith

dangles : (t : Bool) (x y : SqlxError) (d : Database) → (guard (not t) y >> ok d) ≡ err x → t ≡ true
dangles true x y d e = refl
dangles false x y d e = absurd (not-ok-err e)

-- An error that `should_retry` takes for worth a retry comes from the unique index of the order, or
-- from the foreign key.
pub spawn_seeing_error :
    (to_jsonb : String → Option String) (now : ℕ) (b : JobBuilder) (seen : List Message)
    (db : Database) (x : SqlxError)
    → spawn_seeing to_jsonb now b seen db ≡ err x
    → should_retry x ≡ true
    → (r : Message) × (message_row now (bind_message b ∷ []) seen (bind_message b) ≡ ok r)
      × ((any (conflicts r) db.messages ≡ true) ⊎ (has_dangling (r ∷ db.messages) ≡ true))
unfolding spawn_seeing insert_seeing insert_messages
spawn_seeing_error to_jsonb now b seen db x e h =
    let new = bind_message b in
    elim (>>=-eq-err (insert_seeing to_jsonb now (new ∷ []) seen db) _ e) [
      | inr (d, _, q) ↦ absurd (not-ok-err q)
      | inl e₁ ↦ elim (>>=-eq-err (insert_payloads to_jsonb (new ∷ []) db.payloads) _ e₁) [
        | inl p ↦ absurd (false≢true (sym (insert_payloads_error to_jsonb new db.payloads x p) ∙ h))
        | inr (ps, _, e₂) ↦
            elim (>>=-eq-err (insert_messages now (new ∷ []) seen (new ∷ []) db.messages) _ e₂) [
              | inl p ↦ elim (>>=-eq-err (message_row now (new ∷ []) seen new) _ p) [
                | inl q ↦
                    absurd (false≢true (sym (message_row_error now (new ∷ []) seen new x q) ∙ h))
                | inr (r, row, e₃) ↦ elim (>>=-eq-err (insert_message r db.messages) _ e₃) [
                  | inl q ↦
                      let (fresh, clash) = insert_message_error r db.messages x q h in
                      (r, row, inl clash)
                  | inr (ms, _, q) ↦ absurd (not-ok-err q)
                ]
              ]
              | inr (ms, p, e₃) ↦
                  let (r, row, q) = >>=-eq-ok (message_row now (new ∷ []) seen new) _ p in
                  let (ms', i, q') = >>=-eq-ok (insert_message r db.messages) _ q in
                  let (fresh, same) = insert_message-ok r db.messages ms' i in
                  (
                    r,
                    row,
                    inr (
                        ap has_dangling (sym (sym (ok_injective q') ∙ same))
                        ∙ dangles (has_dangling ms) x _ _ e₃),
                  )
            ]
      ]
    ]
