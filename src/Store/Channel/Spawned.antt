-- ===== src/Store/Channel/Spawned.antt =====
-- The order of a channel after a message is inserted, and in a part of the table that keeps all of
-- the channel or nothing of it.
use sqlxmq.Prelude.{
  ℕ, String, ◌≡◌, ◌≢◌, refl, sym, ◌∙◌, ◌⊎◌, subst, inl, inr, Bool, true, false, not, List, [], ◌∷◌,
  ◌++◌, filter, some, Memᴰ, Memᴰ-filter, filter-Memᴰ, some_injective, arith,
}
use sqlxmq.Store.{Message, uuid_nil}
use sqlxmq.Store.Consistent.{IsConsistent}
use sqlxmq.Store.Channel.{InChannel, Follows, IsQueue, Chain, last, last_or}
use sqlxmq.Store.Channel.Append.{IsSequence-append, IsSequence-agree, Chain-member, last_or-link}

module _ {ms : List Message} {name args : String} (r : Message) where
  behind_old : (i j : ℕ) → Follows ms name args i j → Follows (r ∷ ms) name args i j
  behind_old i j p = record {
    message = p.message;
    member = Memᴰ.tail p.member;
    channel = p.channel;
    after = p.after;
    same = p.same;
  }

  -- The new message, or one that was there.
  old_or_new :
      (i j : ℕ)
      → Follows (r ∷ ms) name args i j
      → Follows ms name args i j
        ⊎ (InChannel name args r × (r.after_message_id ≡ some i) × (r.id ≡ j))
  old_or_new i j p = by_member p.member
    where
      by_member :
          Memᴰ p.message (r ∷ ms)
          → Follows ms name args i j
            ⊎ (InChannel name args r × (r.after_message_id ≡ some i) × (r.id ≡ j))
      by_member (Memᴰ.head e) = inr (
        subst (InChannel name args) e p.channel,
        subst (λ (m : Message). m.after_message_id ≡ some i) e p.after,
        subst (λ (m : Message). m.id ≡ j) e p.same,
      )
      by_member (Memᴰ.tail k) = inl (record {
        message = p.message;
        member = k;
        channel = p.channel;
        after = p.after;
        same = p.same;
      })

  -- A message of another channel, or without order.
  pub other-IsQueue :
      (ids : List ℕ)
      → ((i : ℕ) → InChannel name args r → ¬ (r.after_message_id ≡ some i))
      → IsQueue ms name args ids
      → IsQueue (r ∷ ms) name args ids
  other-IsQueue ids other = IsSequence-agree behind_old λ i j p. elim (old_or_new i j p) [
    | inl q ↦ q
    | inr (ch, after, _) ↦ absurd (other i ch after)
  ]

  -- An ordered message of the channel, behind the last one.
  module _ (c : IsConsistent ms) (fresh : (b : Message) → Memᴰ b ms → b.id ≢ r.id) where
    last_there :
        (ids : List ℕ)
        → Chain (Follows ms name args) uuid_nil ids
        → (b : Message) × Memᴰ b ms × (b.id ≡ last_or uuid_nil ids)
    last_there [] h = let (n, k, e, _) = c.has_nil in (n, k, e)
    last_there (k ∷ ids) h = let ((_, p), _) = last_or-link k ids h in (p.message, p.member, p.same)

    pub ordered-IsQueue :
        (ids : List ℕ)
        → InChannel name args r
        → r.after_message_id ≡ some (last_or uuid_nil ids)
        → IsQueue ms name args ids
        → IsQueue (r ∷ ms) name args (ids ++ r.id ∷ [])
    ordered-IsQueue ids ch after q =
        IsSequence-append ids r.id behind_old
          (λ i j p. elim (old_or_new i j p) [ inl o ↦ inl o | inr (_, _, e) ↦ inr (sym e) ])
          (record {
            message = r;
            member = Memᴰ.head refl;
            channel = ch;
            after = after;
            same = refl;
          })
          (λ j p. elim (old_or_new r.id j p) [
            | inl o ↦ let (b, k, e) = c.linked o.message r.id o.member o.after in fresh b k e
            | inr (_, itself, _) ↦
                let (b, k, e) = last_there ids q.chain in
                fresh b k (e ∙ some_injective (sym after ∙ itself))
          ])
          (λ m. let (h, p) = Chain-member r.id q.chain m in fresh p.message p.member p.same) q

-- The messages that a test spares.
module _ (gone : Message → Bool) (ms : List Message) (name args : String) where
  pub none_left-IsQueue :
      ((i j : ℕ) (p : Follows ms name args i j) → gone p.message ≡ true)
      → IsQueue (filter (λ m. not (gone m)) ms) name args []
  none_left-IsQueue all = record {
    chain = last (λ j p. none_there uuid_nil j p);
    covers = λ i j p. absurd (none_there i j p);
    once = tt;
  }
    where
      none_there : (i j : ℕ) → ¬ Follows (filter (λ m. not (gone m)) ms) name args i j
      none_there i j p =
          let (k, g) = Memᴰ-filter (λ m. not (gone m)) p.message ms p.member in
          let h = all i j (record {
            message = p.message;
            member = k;
            channel = p.channel;
            after = p.after;
            same = p.same;
          }) in
          ground arith

  pub all_left-IsQueue :
      (ids : List ℕ)
      → ((i j : ℕ) (p : Follows ms name args i j) → gone p.message ≡ false)
      → IsQueue ms name args ids
      → IsQueue (filter (λ m. not (gone m)) ms) name args ids
  all_left-IsQueue ids none_gone =
      IsSequence-agree
        (λ i j p.
          let g = none_gone i j p in
          record {
            message = p.message;
            member = filter-Memᴰ (λ m. not (gone m)) ms p.member (ground arith);
            channel = p.channel;
            after = p.after;
            same = p.same;
          })
        (λ i j p. record {
          message = p.message;
          member = (Memᴰ-filter (λ m. not (gone m)) p.message ms p.member).0;
          channel = p.channel;
          after = p.after;
          same = p.same;
        })
