-- ===== src/Store/Payloads.antt =====
-- The payloads of the messages, and what the calls of the queue do to them.
use sqlxmq.Prelude.{
  ℕ, String, ◌≡◌, ◌≢◌, refl, sym, ap, ◌∙◌, subst, inl, inr, Bool, true, false, ◌&&◌, not, List, [],
  ◌∷◌, map, Option, ◌==◌, ==_iff, any, elem, filter, Memᴰ, Memᴰ-filter, filter-Memᴰ, Memᴰ-map,
  any-false, arith, Bool-cases, ok, >>=-eq-ok, ok_injective, guard,
}
use sqlxmq.Store.{Message, Payload, Database, uuid_nil, unique_violation}
use sqlxmq.Store.Insert.{NewMessage, insert_payload, insert_payloads, cast_json}
use sqlxmq.Store.Remove.{relink}
use sqlxmq.Store.Schedule.{checkpoint_payload}
use sqlxmq.Store.Consistent.{Distinct-eq}
use sqlxmq.Store.Consistent.Clear.{payloads_left}
use sqlxmq.Store.Poll.Claim.{Distinct}
use sqlxmq.Store.Consistent.Update.{Updated, Updated-old}

abbrev pub Keyed : ℕ → List Payload → Type 0
Keyed id ps = (p : Payload) × Memᴰ p ps × (p.id ≡ id)

abbrev pub HasPayloads : List Message → List Payload → Type 0
HasPayloads ms ps = (m : Message) → Memᴰ m ms → m.id ≢ uuid_nil → Keyed m.id ps

-- Each message that is left, but the nil one, was there before, and has kept its payload.
carried :
    (ms ms' : List Message) (ps ps' : List Payload)
    → ((m' : Message)
        → Memᴰ m' ms'
        → (m : Message) × Memᴰ m ms × (m'.id ≡ m.id) × (Keyed m.id ps → Keyed m.id ps'))
    → HasPayloads ms ps
    → HasPayloads ms' ps'
carried ms ms' ps ps' back h m' k nn =
    let (m, km, e, keep) = back m' k in
    subst (λ i. Keyed i ps') (sym e) (keep (h m km λ z. nn (e ∙ z)))

pub Updated-HasPayloads :
    (ms ms' : List Message) (ps : List Payload)
    → Updated ms ms'
    → HasPayloads ms ps
    → HasPayloads ms' ps
Updated-HasPayloads ms ms' ps u =
    carried ms ms' ps ps λ m' k. let (m, km, l) = Updated-old m' u k in (m, km, l.same_id, λ x. x)

relink_id : (gone : Message → Bool) (ms : List Message) (m : Message) → (relink gone ms m).id ≡ m.id
unfolding relink
relink_id gone ms m = ground arith

pub deleted-HasPayloads :
    (ids : List ℕ) (db : Database)
    → HasPayloads db.messages db.payloads
    → HasPayloads
        (map
          (relink (λ m. elem m.id ids) db.messages)
          (filter (λ m. not (elem m.id ids)) db.messages))
        (filter (λ p. not (elem p.id ids)) db.payloads)
deleted-HasPayloads ids db = carried _ _ _ _ λ m' k.
    let (m, km, e) = Memᴰ-map (relink (λ m. elem m.id ids) db.messages) m' _ k in
    let (km', stays) = Memᴰ-filter (λ (x : Message). not (elem x.id ids)) m db.messages km in
    (
      m,
      km',
      ap (λ (x : Message). x.id) e ∙ relink_id (λ x. elem x.id ids) db.messages m,
      (λ (p, kp, q). (
        p,
        filter-Memᴰ (λ (x : Payload). not (elem x.id ids)) db.payloads kp
            (ap (λ i. not (elem i ids)) q ∙ stays),
        q,
      )),
    )

-- A deletion that takes the payloads by the ids of the messages that go.
pub cleared-HasPayloads :
    (gone : Message → Bool) (db : Database)
    → Distinct db.messages
    → HasPayloads db.messages db.payloads
    → HasPayloads (filter (λ m. not (gone m)) db.messages) (payloads_left gone db)
cleared-HasPayloads gone db d = carried _ _ _ _ λ m k.
    let (km, stays) = Memᴰ-filter (λ (x : Message). not (gone x)) m db.messages k in
    (
      m,
      km,
      refl,
      (λ (p, kp, q). (
        p,
        filter-Memᴰ
            (λ (x : Payload). not (any (λ (y : Message). gone y && x.id == y.id) db.messages))
            db.payloads kp
            (ap not (
              any-false (λ (y : Message). gone y && p.id == y.id) db.messages
                λ y ky. other m p y stays q λ e. Distinct-eq db.messages m y d km ky e)),
        q,
      )),
    )
  where
    other :
        (m : Message) (p : Payload) (y : Message)
        → not (gone m) ≡ true
        → p.id ≡ m.id
        → (m.id ≡ y.id → m ≡ y)
        → (gone y && p.id == y.id) ≡ false
    other m p y stays q same = elim (Bool-cases (p.id == y.id)) [
      | inl e ↦
          let z = same (sym q ∙ (==_iff p.id y.id).0 e) in
          let kept = subst (λ (x : Message). not (gone x) ≡ true) z stays in ground arith
      | inr e ↦ ground arith
    ]

module _ (to_jsonb : String → Option String) where
  -- The table after a checkpoint: each payload with its id.
  checkpoint_payload-step :
      (id : ℕ) (json : Option String) (bytes : Option (List ℕ)) (p : Payload)
      (ps ps' : List Payload)
      → checkpoint_payload to_jsonb id json bytes (p ∷ ps) ≡ ok ps'
      → (p' : Payload) × (rest : List Payload) × (p'.id ≡ p.id)
        × (checkpoint_payload to_jsonb id json bytes ps ≡ ok rest)
        × (ps' ≡ p' ∷ rest)
  unfolding checkpoint_payload
  checkpoint_payload-step id json bytes p ps ps' e =
      let (rest, e₁, e₂) = >>=-eq-ok (checkpoint_payload to_jsonb id json bytes ps) _ e in
      elim (Bool-cases (p.id == id)) [
        | inl hit ↦
            let (p', e₃, e₄) = >>=-eq-ok _ _ (rw hit at e₂) in
            let (j, e₅, e₆) = >>=-eq-ok (cast_json to_jsonb json) _ e₃ in
            (
              p',
              rest,
              sym (ap (λ (x : Payload). x.id) (ok_injective e₆)),
              e₁,
              sym (ok_injective e₄),
            )
        | inr miss ↦ (p, rest, refl, e₁, sym (ok_injective (rw miss at e₂)))
      ]

  pub checkpoint_payload-Keyed :
      (id i : ℕ) (json : Option String) (bytes : Option (List ℕ)) (ps ps' : List Payload)
      → checkpoint_payload to_jsonb id json bytes ps ≡ ok ps'
      → Keyed i ps
      → Keyed i ps'
  checkpoint_payload-Keyed id i json bytes [] ps' e (p, k, q) = elim k [ ]
  checkpoint_payload-Keyed id i json bytes (p ∷ ps) ps' e (b, k, q) =
      let (p', rest, same, e₁, e₂) = checkpoint_payload-step id json bytes p ps ps' e in
      subst (Keyed i) (sym e₂)
        (go k p' rest same λ kb. checkpoint_payload-Keyed id i json bytes ps rest e₁ (b, kb, q))
    where
      go :
          Memᴰ b (p ∷ ps)
          → (p' : Payload) (rest : List Payload) → p'.id ≡ p.id
          → (Memᴰ b ps → Keyed i rest)
          → Keyed i (p' ∷ rest)
      go (Memᴰ.head z) p' rest same ih =
          (p', Memᴰ.head refl, same ∙ sym (ap (λ (x : Payload). x.id) z) ∙ q)
      go (Memᴰ.tail kb) p' rest same ih = let (x, kx, z) = ih kb in (x, Memᴰ.tail kx, z)

  insert_payloads-one :
      (new : NewMessage) (ps ps' : List Payload)
      → insert_payloads to_jsonb (new ∷ []) ps ≡ ok ps'
      → (p : Payload) × (p.id ≡ new.id) × (ps' ≡ p ∷ ps)
  unfolding insert_payloads insert_payload
  insert_payloads-one new ps ps' e =
      let (mid, e₁, e₂) = >>=-eq-ok (insert_payload to_jsonb new ps) _ e in
      let (json, e₃, e₄) = >>=-eq-ok (cast_json to_jsonb new.payload_json) _ e₁ in
      let (_, e₅, e₆) =
        >>=-eq-ok
          (guard (not (any (λ (p : Payload). p.id == new.id) ps))
            (unique_violation "mq_payloads_pkey"))
          _ e₄ in
      (_, refl, sym (ok_injective e₂) ∙ sym (ok_injective e₆))

  pub inserted-HasPayloads :
      (new : NewMessage) (r : Message) (ms : List Message) (ps ps' : List Payload)
      → insert_payloads to_jsonb (new ∷ []) ps ≡ ok ps'
      → r.id ≡ new.id
      → HasPayloads ms ps
      → HasPayloads (r ∷ ms) ps'
  inserted-HasPayloads new r ms ps ps' e same h m k nn =
      let (p, q, all) = insert_payloads-one new ps ps' e in subst (Keyed m.id) (sym all) (go k p q)
    where
      go : Memᴰ m (r ∷ ms) → (p : Payload) → p.id ≡ new.id → Keyed m.id (p ∷ ps)
      go (Memᴰ.head z) p q = (p, Memᴰ.head refl, q ∙ sym same ∙ sym (ap (λ (x : Message). x.id) z))
      go (Memᴰ.tail kt) p q = let (b, kb, z) = h m kt nn in (b, Memᴰ.tail kb, z)
