-- ===== src/Spawn/Effect.antt =====
-- When `spawn` succeeds, and what it then leaves.
use sqlxmq.Prelude.{
  ℕ, String, ◌≡◌, sym, ap, ◌∙◌, Bool, false, not, List, [], ◌∷◌, Option, ◌==◌, any, arith, ok, ◌>>◌,
  guard, >>=-eq-ok, ok_injective,
}
use sqlxmq.Store.{
  Message, Payload, Database, after_fkey, foreign_key_violation, conflicts, has_dangling,
}
use sqlxmq.Store.Insert.{
  insert, insert_payloads, insert_messages, insert_message, message_row, new_channels,
  notify_channels,
}
use sqlxmq.Spawn.{JobBuilder, bind_message, spawn}

-- The tables after the row `r`, and the payloads `ps`.
abbrev pub with_message : JobBuilder → Database → Message → List Payload → Database
with_message b db r ps = record {
  messages = r ∷ db.messages;
  payloads = ps;
  notified = notify_channels (new_channels (bind_message b ∷ [])) db.notified;
}

module _ (to_jsonb : String → Option String) (now : ℕ) (b : JobBuilder) (db : Database) where
  -- What the statement finds when it succeeds.
  pub record Accepts (r : Message) (ps : List Payload) : Type 0 where
    pub payload : insert_payloads to_jsonb (bind_message b ∷ []) db.payloads ≡ ok ps
    pub row : message_row now (bind_message b ∷ []) db.messages (bind_message b) ≡ ok r
    pub fresh : any (λ n. n.id == r.id) db.messages ≡ false
    pub free : any (conflicts r) db.messages ≡ false
    pub linked : has_dangling (r ∷ db.messages) ≡ false

  insert_messages_intro :
      (r : Message)
      → message_row now (bind_message b ∷ []) db.messages (bind_message b) ≡ ok r
      → any (λ n. n.id == r.id) db.messages ≡ false
      → any (conflicts r) db.messages ≡ false
      → insert_messages now (bind_message b ∷ []) db.messages (bind_message b ∷ []) db.messages
        ≡ ok (r ∷ db.messages)
  unfolding insert_messages insert_message
  insert_messages_intro r e f g = rw e (rw (f, g))

  pub spawn_intro :
      (r : Message) (ps : List Payload)
      → Accepts r ps
      → spawn to_jsonb now b db ≡ ok (with_message b db r ps, b.id)
  unfolding spawn insert
  spawn_intro r ps a =
      rw a.payload (rw (insert_messages_intro r a.row a.fresh a.free) (rw a.linked))

  insert_message-ok :
      (r : Message) (ms ms' : List Message)
      → insert_message r ms ≡ ok ms'
      → (any (λ n. n.id == r.id) ms ≡ false) × (any (conflicts r) ms ≡ false) × (ms' ≡ r ∷ ms)
  unfolding insert_message
  insert_message-ok r ms ms' e = ground arith

  guard-ok :
      (t : Bool) (x : Database) (db' : Database)
      → (guard (not t) (foreign_key_violation after_fkey) >> ok x) ≡ ok db'
      → (t ≡ false) × (x ≡ db')
  guard-ok t x db' e = ground arith

  insert-inversion :
      (db' : Database)
      → insert to_jsonb now (bind_message b ∷ []) db ≡ ok db'
      → (r : Message) × (ps : List Payload) × Accepts r ps × (db' ≡ with_message b db r ps)
  unfolding insert insert_messages
  insert-inversion db' e =
      let new = bind_message b in
      let (ps, e₁, e₂) = >>=-eq-ok (insert_payloads to_jsonb (new ∷ []) db.payloads) _ e in
      let (ms, e₃, e₄) =
        >>=-eq-ok (insert_messages now (new ∷ []) db.messages (new ∷ []) db.messages) _ e₂ in
      let (r, e₅, e₆) = >>=-eq-ok (message_row now (new ∷ []) db.messages new) _ e₃ in
      let (ms₂, e₇, e₈) = >>=-eq-ok (insert_message r db.messages) _ e₆ in
      let (f, g, p) = insert_message-ok r db.messages ms₂ e₇ in
      let q = sym (ok_injective e₈) ∙ p in
      let (t, d) = guard-ok (has_dangling ms) _ db' e₄ in
      (
        r,
        ps,
        record {
          payload = e₁;
          row = e₅;
          fresh = f;
          free = g;
          linked = ap has_dangling (sym q) ∙ t;
        },
        sym d
            ∙ ap
                (λ (x : List Message). record {
                  messages = x;
                  payloads = ps;
                  notified = notify_channels (new_channels (new ∷ [])) db.notified;
                })
                q,
      )

  pub spawn_inversion :
      (db' : Database) (id : ℕ)
      → spawn to_jsonb now b db ≡ ok (db', id)
      → (r : Message) × (ps : List Payload) × Accepts r ps
        × (db' ≡ with_message b db r ps)
        × (id ≡ b.id)
  unfolding spawn
  spawn_inversion db' id e =
      let (d, e₁, e₂) = >>=-eq-ok (insert to_jsonb now (bind_message b ∷ []) db) _ e in
      let (r, ps, a, p) = insert-inversion d e₁ in
      let q = ok_injective e₂ in
      (r, ps, a, sym (ap (λ (x : Database × ℕ). x.0) q) ∙ p, sym (ap (λ (x : Database × ℕ). x.1) q))
