-- ===== src/Store/Consistent/Order.antt =====
-- The ordered messages of a channel, and what a poll returns of them.
use sqlxmq.Prelude.{
  ℕ, String, ℤ, ◌≡◌, ◌≢◌, sym, ap, ◌∙◌, subst, inl, inr, true, false, List, Option, none, some, All,
  All-Memᴰ, Memᴰ, arith, Option-cases, some_injective, not-none-some,
}
use sqlxmq.Store.{Message, Database, uuid_nil, uuid_exists}
use sqlxmq.Store.Poll.{PolledMessage, is_ready}
use sqlxmq.Store.Poll.Select.{Channel, IsReadyId, RowOf}
use sqlxmq.Store.Consistent.{IsConsistent, Distinct-eq}

abbrev pub IsReturned : Message → List PolledMessage → Type 0
IsReturned m rows = (p : PolledMessage) × Memᴰ p rows × (p.id ≡ some m.id)

abbrev pub IsOrdered : Message → Type 0
IsOrdered m = m.after_message_id ≢ none

-- An ordered message that is ready is in the first place of its channel.
ready-first :
    (now : ℕ) (m : Message)
    → is_ready now m ≡ true
    → IsOrdered m
    → m.after_message_id ≡ some uuid_nil
ready-first now m h o = elim (Option-cases m.after_message_id) [
  | inl e ↦ absurd (o e)
  | inr (a, e) ↦ e ∙ ap some (first a m.after_message_id e (head now m h))
]
  where
    head : (now : ℕ) (m : Message) → is_ready now m ≡ true → uuid_exists m.after_message_id ≡ false
    head now m h = ground arith

    first : (a : ℕ) (o : Option ℕ) → o ≡ some a → uuid_exists o ≡ false → a ≡ uuid_nil
    first a o e h = ground arith

module _ (shuffle : List Channel → List Channel) (now : ℕ) (names : Option (List String))
    (batch_size : ℤ) (db db' : Database) (rows : List PolledMessage) where
  pub returned-first :
      (m : Message)
      → IsConsistent db.messages
      → All (RowOf (IsReadyId now names db.messages)) rows
      → Memᴰ m db.messages
      → IsReturned m rows
      → IsOrdered m
      → m.after_message_id ≡ some uuid_nil
  returned-first m c ready km (p, kp, e) o =
      elim (All-Memᴰ (RowOf (IsReadyId now names db.messages)) rows ready kp) [
        | inl x ↦ absurd (not-none-some (sym x ∙ e))
        | inr (i, x, (b, kb, q, h, _)) ↦
            let same =
              Distinct-eq db.messages m b c.distinct km kb (sym (q ∙ some_injective (sym x ∙ e))) in
            ready-first now m (subst (λ y. is_ready now y ≡ true) (sym same) h) o
      ]
