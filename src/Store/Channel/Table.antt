-- ===== src/Store/Channel/Table.antt =====
-- Who follows whom in a consistent table of messages, and after an update of it.
use sqlxmq.Prelude.{
  ℕ, String, ◌≡◌, ◌≢◌, refl, sym, ap, subst, ◌∙◌, inl, inr, false, List, ◌==◌, ==_iff, Memᴰ,
  Bool-cases, Option-cases, not-none-some, arith,
}
use sqlxmq.Store.{Message, uuid_nil}
use sqlxmq.Store.Consistent.{IsConsistent, Distinct-eq}
use sqlxmq.Store.Consistent.Update.{Updated, Updated-old, Updated-new}
use sqlxmq.Store.Channel.{Follows, IsQueue}
use sqlxmq.Store.Channel.Append.{IsSequence-agree}

differ : (i j : ℕ) → (i == j) ≡ false → i ≢ j
differ i j z e = ground arith

module _ {ms : List Message} {name args : String} (c : IsConsistent ms) where
  -- One place of the order has one message.
  pub Follows-unique : (i j k : ℕ) → Follows ms name args i j → Follows ms name args i k → j ≡ k
  Follows-unique i j k p q = elim (Bool-cases (p.message.id == q.message.id)) [
    | inl e ↦ sym p.same ∙ (==_iff p.message.id q.message.id).0 e ∙ q.same
    | inr e ↦ absurd (
        c.unique p.message q.message p.member q.member (differ _ _ e)
          (p.channel.0 ∙ sym q.channel.0, p.channel.1 ∙ sym q.channel.1) i p.after q.after)
  ]

  pub Follows-nil : (i : ℕ) → ¬ Follows ms name args i uuid_nil
  Follows-nil i p =
      let (n, kn, e, z) = c.has_nil in
      let same = Distinct-eq ms p.message n c.distinct p.member kn (p.same ∙ sym e) in
      not-none-some (sym z ∙ ap (λ (m : Message). m.after_message_id) (sym same) ∙ p.after)

  pub Follows-not_nil :
      (i j : ℕ) (p : Follows ms name args i j) → (p.message.id == uuid_nil) ≡ false
  Follows-not_nil i j p = elim (Bool-cases (p.message.id == uuid_nil)) [
    | inl e ↦ absurd (
        Follows-nil i
          (subst (Follows ms name args i) (sym p.same ∙ (==_iff p.message.id uuid_nil).0 e) p))
    | inr e ↦ e
  ]

  -- Who is followed stands in the order itself, unless it is the nil message.
  pub Follows-ordered :
      (d : Message) (j : ℕ)
      → Memᴰ d ms
      → d.id ≢ uuid_nil
      → Follows ms name args d.id j
      → (h : ℕ) × (p : Follows ms name args h d.id) × (p.message ≡ d)
  Follows-ordered d j kd nn p =
      let ((sn, sa), o) = c.chained d p.message kd p.member p.after nn in
      elim (Option-cases d.after_message_id) [
        | inl e ↦ absurd (o e)
        | inr (h, e) ↦ (
          h,
          record {
            message = d;
            member = kd;
            channel = (sn ∙ p.channel.0, sa ∙ p.channel.1);
            after = e;
            same = refl;
          },
          refl,
        )
      ]

-- The updates leave the order alone.
Updated-Follows :
    {ms ms' : List Message} {name args : String} (i j : ℕ)
    → Updated ms ms'
    → Follows ms name args i j
    → Follows ms' name args i j
Updated-Follows i j u p =
    let (m', k, l) = Updated-new p.message u p.member in
    record {
      message = m';
      member = k;
      channel = (l.same_name ∙ p.channel.0, l.same_args ∙ p.channel.1);
      after = l.same_after ∙ p.after;
      same = l.same_id ∙ p.same;
    }

Follows-Updated :
    {ms ms' : List Message} {name args : String} (i j : ℕ)
    → Updated ms ms'
    → Follows ms' name args i j
    → Follows ms name args i j
Follows-Updated i j u p =
    let (m, k, l) = Updated-old p.message u p.member in
    record {
      message = m;
      member = k;
      channel = (sym l.same_name ∙ p.channel.0, sym l.same_args ∙ p.channel.1);
      after = sym l.same_after ∙ p.after;
      same = sym l.same_id ∙ p.same;
    }

pub Updated-IsQueue :
    {ms ms' : List Message} {name args : String} {ids : List ℕ}
    → Updated ms ms'
    → IsQueue ms name args ids
    → IsQueue ms' name args ids
Updated-IsQueue u = IsSequence-agree (λ i j. Updated-Follows i j u) (λ i j. Follows-Updated i j u)
