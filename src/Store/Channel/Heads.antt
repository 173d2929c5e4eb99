-- ===== src/Store/Channel/Heads.antt =====
-- The deletion of messages that wait for no other one, however many at once.
use mathlib.Core.Bool.{false≢true}
use sqlxmq.Prelude.{
  ℕ, String, ◌≡◌, ◌≢◌, refl, sym, ap, ◌∙◌, subst, inl, inr, Bool, true, false, not, List, map,
  Option, none, some, ◌==◌, ==_iff, any, any-false, any_of_Memᴰ, filter, Memᴰ, Bool-cases,
  Option-cases, Pairwise-filter, arith, ok,
}
use sqlxmq.Store.{Message, uuid_nil, uuid_exists, conflicts, has_conflict, is_linked, has_dangling}
use sqlxmq.Store.Remove.{relink, delete_where}
use sqlxmq.Store.Consistent.{IsConsistent, Distinct-eq, conflicts→, has_conflict-false}
use sqlxmq.Store.Consistent.Remove.{Distinct-map}
use sqlxmq.Store.Channel.{Follows}
use sqlxmq.Store.Channel.Left.{relink_cases, relink_id, left_member, left_origin, Follows-origin}
use sqlxmq.Store.Channel.Table.{Follows-unique, Follows-ordered}

module _ (gone : Message → Bool) (ms : List Message) (c : IsConsistent ms)
    (heads : (d : Message) → Memᴰ d ms → gone d ≡ true → uuid_exists d.after_message_id ≡ false)
    (stays : (m : Message) → m.id ≡ uuid_nil → gone m ≡ false) where
  abbrev pub heads_kept : List Message
  heads_kept = map (relink gone ms) (filter (λ m. not (gone m)) ms)

  gone-ne_nil : (d : Message) → gone d ≡ true → d.id ≢ uuid_nil
  gone-ne_nil d g z = false≢true (sym (stays d z) ∙ g)

  -- Who follows a message that goes, of a channel: it was the first one.
  head_first :
      {name args : String} (d : Message) (h j : ℕ)
      → Memᴰ d ms
      → gone d ≡ true
      → d.id ≡ h
      → Follows ms name args h j
      → Follows ms name args uuid_nil d.id
  head_first {name} {args} d h j kd g e p =
      let (i, q, z) =
        Follows-ordered c d j kd (gone-ne_nil d g)
          (subst (λ x. Follows ms name args x j) (sym e) p) in
      let first : i ≡ uuid_nil =
        is_nil i d.after_message_id (sym (ap (λ (m : Message). m.after_message_id) z) ∙ q.after)
          (heads d kd g) in
      subst (λ x. Follows ms name args x d.id) first q
    where
      is_nil : (i : ℕ) (o : Option ℕ) → o ≡ some i → uuid_exists o ≡ false → i ≡ uuid_nil
      is_nil i o e h = ground arith

  -- Two that were kept stand in different places.
  kept_unique :
      {name args : String} (i j k : ℕ)
      → Follows heads_kept name args i j
      → Follows heads_kept name args i k
      → j ≡ k
  kept_unique {name} {args} i j k p q =
      let (h, p', gp, place) = Follows-origin gone ms heads_kept refl i j p in
      let (l, q', gq, place') = Follows-origin gone ms heads_kept refl i k q in
      elim place [
        | inr e ↦ elim place' [
          | inr f ↦
              Follows-unique c i j k (subst (λ x. Follows ms name args x j) e p')
                (subst (λ x. Follows ms name args x k) f q')
          | inl (z, d, kd, g, e') ↦
              absurd (not_head d kd g (head_first d l k kd g e' q') j p' gp (e ∙ z))
        ]
        | inl (z, d, kd, g, e) ↦ elim place' [
          | inr f ↦ absurd (not_head d kd g (head_first d h j kd g e p') k q' gq (f ∙ z))
          | inl (_, d', kd', g', f) ↦
              let same =
                Follows-unique c uuid_nil d.id d'.id (head_first d h j kd g e p')
                  (head_first d' l k kd' g' f q') in
              Follows-unique c h j k p'
                (subst (λ x. Follows ms name args x k) (sym f ∙ sym same ∙ e) q')
        ]
      ]
    where
      not_head :
          (d : Message)
          → Memᴰ d ms
          → gone d ≡ true
          → Follows ms name args uuid_nil d.id
          → (j : ℕ) {h : ℕ} (p : Follows ms name args h j) → gone p.message ≡ false
          → ¬ (h ≡ uuid_nil)
      not_head d kd g first j p gp z =
          let same =
            Follows-unique c uuid_nil d.id j first (subst (λ x. Follows ms name args x j) z p) in
          let e = Distinct-eq ms d p.message c.distinct kd p.member (same ∙ sym p.same) in
          false≢true (sym gp ∙ ap gone (sym e) ∙ g)

  heads_conflict : has_conflict heads_kept ≡ false
  heads_conflict =
      has_conflict-false heads_kept
        (Distinct-map _ _ (relink_id gone ms) (Pairwise-filter _ _ ms c.distinct))
        λ a b ka kb ne. elim (Bool-cases (conflicts a b)) [
          | inr miss ↦ miss
          | inl hit ↦
              let ((sn, sa), i, p, q) = conflicts→ a b hit in
              absurd (
                ne (
                  kept_unique {name = a.channel_name} {args = a.channel_args} i a.id b.id
                    (record {
                      message = a;
                      member = ka;
                      channel = (refl, refl);
                      after = p;
                      same = refl;
                    })
                    (record {
                      message = b;
                      member = kb;
                      channel = (sym sn, sym sa);
                      after = q;
                      same = refl;
                    })))
        ]

  -- A row that stays is there for those that follow it.
  kept_id :
      (b : Message) (i : ℕ)
      → Memᴰ b ms
      → gone b ≡ false
      → b.id ≡ i
      → any (λ n. n.id == i) heads_kept ≡ true
  kept_id b i kb g e =
      any_of_Memᴰ (λ (n : Message). n.id == i) heads_kept
        (left_member gone ms heads_kept refl b kb g)
        ((==_iff (relink gone ms b).id i).1 (relink_id gone ms b ∙ e))

  heads_linked : (a : Message) → Memᴰ a heads_kept → is_linked heads_kept a ≡ true
  heads_linked a k =
      let (b, kb, g, q) = left_origin gone ms heads_kept refl a k in
      elim (relink_cases gone ms b) [
        | inl (_, _, _, _, r) ↦
            let (n, kn, e, _) = c.has_nil in
            linked_to a uuid_nil (ap (λ (x : Message). x.after_message_id) (q ∙ r))
              (kept_id n uuid_nil kn (stays n e) e)
        | inr (miss, r) ↦ elim (Option-cases b.after_message_id) [
          | inl e ↦ linked_to_none a (ap (λ (x : Message). x.after_message_id) (q ∙ r) ∙ e)
          | inr (i, e) ↦
              let (d, kd, f) = c.linked b i kb e in
              elim (Bool-cases (gone d)) [
                | inl gd ↦ absurd (miss d kd gd (e ∙ ap some (sym f)))
                | inr gd ↦
                    linked_to a i (ap (λ (x : Message). x.after_message_id) (q ∙ r) ∙ e)
                      (kept_id d i kd gd f)
              ]
        ]
      ]
    where
      linked_to :
          (a : Message) (i : ℕ)
          → a.after_message_id ≡ some i
          → any (λ n. n.id == i) heads_kept ≡ true
          → is_linked heads_kept a ≡ true
      linked_to a i e h = rw e h

      linked_to_none : (a : Message) → a.after_message_id ≡ none → is_linked heads_kept a ≡ true
      linked_to_none a e = rw e refl

  -- Messages that wait for no other can be deleted together.
  pub delete_heads : delete_where gone ms ≡ ok heads_kept
  unfolding delete_where
  delete_heads =
      let dangling : has_dangling heads_kept ≡ false =
        any-false (λ m. not (is_linked heads_kept m)) heads_kept
          (λ a k. rw (heads_linked a k) refl) in
      rw (heads_conflict, dangling) refl

  -- No row that is left has the id of one that went.
  pub heads_kept_id :
      (a : Message) → Memᴰ a heads_kept → (b : Message) × (gone b ≡ false) × (a.id ≡ b.id)
  heads_kept_id a k =
      let (b, _, g, q) = left_origin gone ms heads_kept refl a k in
      (b, g, ap (λ (m : Message). m.id) q ∙ relink_id gone ms b)
