-- ===== src/Store/Consistent/Delete.antt =====
-- Any deletion that the constraints let pass, and that spares the nil message.
use mathlib.Core.Bool.{false≢true}
use sqlxmq.Prelude.{
  ℕ, ◌≡◌, ◌≢◌, refl, sym, ap, ◌∙◌, ◌⊎◌, subst, inl, inr, Bool, true, false, ◌&&◌, not, List, [],
  ◌∷◌, map, none, some, ◌==◌, ==_iff, sql_eq, any, filter, Memᴰ, Memᴰ-any, Memᴰ-filter, Memᴰ-map,
  none_of_any, filter-Memᴰ, map-Memᴰ, Pairwise-filter, some_injective, arith, Bool-cases, ok,
}
use sqlxmq.Store.{Message, uuid_nil, conflicts, has_conflict, is_linked, has_dangling}
use sqlxmq.Store.Remove.{relink, delete_where}
use sqlxmq.Store.Consistent.{SameChannel, IsConsistent, →conflicts}
use sqlxmq.Store.Consistent.Remove.{Distinct-map}

-- What becomes of a message that is kept.
record Kept (b b' : Message) : Type 0 where
  same_id : b'.id ≡ b.id
  same_name : b'.channel_name ≡ b.channel_name
  same_args : b'.channel_args ≡ b.channel_args
  after :
      ((b.after_message_id ≢ none) × (b'.after_message_id ≡ some uuid_nil))
      ⊎ (b'.after_message_id ≡ b.after_message_id)

no_conflict :
    (ms : List Message) (a b : Message) (i : ℕ)
    → has_conflict ms ≡ false
    → Memᴰ a ms
    → Memᴰ b ms
    → a.id ≢ b.id
    → SameChannel a b
    → a.after_message_id ≡ some i
    → ¬ (b.after_message_id ≡ some i)
no_conflict [] a b i h ka kb ne s p q = elim ka [ ]
no_conflict (m ∷ ms) a b i h ka kb ne s p q =
    go ka kb (λ k k'. no_conflict ms a b i (ground arith) k k' ne s p q)
  where
    first : any (conflicts m) ms ≡ false
    first = ground arith

    clash :
        (x y : Message)
        → m ≡ x
        → Memᴰ y ms
        → SameChannel x y
        → x.after_message_id ≡ some i
        → ¬ (y.after_message_id ≡ some i)
    clash x y e k t u v = false≢true (
        sym (none_of_any (conflicts m) ms y first k)
        ∙ subst (λ z. conflicts z y ≡ true) (sym e) (→conflicts x y i t u v))

    go : Memᴰ a (m ∷ ms) → Memᴰ b (m ∷ ms) → (Memᴰ a ms → Memᴰ b ms → ⊥) → ⊥
    go (Memᴰ.head e) (Memᴰ.head e') ih = ne (ap (λ (x : Message). x.id) (e ∙ sym e'))
    go (Memᴰ.head e) (Memᴰ.tail k) ih = clash a b (sym e) k s p q
    go (Memᴰ.tail k) (Memᴰ.head e) ih = clash b a (sym e) k (sym s.0, sym s.1) q p
    go (Memᴰ.tail k) (Memᴰ.tail k') ih = ih k k'

module _ (gone : Message → Bool) (ms : List Message) (c : IsConsistent ms) where
  relink-Kept : (b : Message) → Kept b (relink gone ms b)
  unfolding relink
  relink-Kept b = elim (Bool-cases (any (λ d. gone d && sql_eq b.after_message_id d.id) ms)) [
    | inl hit ↦
        let (d, kd, h) = Memᴰ-any _ ms hit in
        rw hit (record {
          same_id = refl;
          same_name = refl;
          same_args = refl;
          after = inl ((λ z. ground arith), refl);
        })
    | inr miss ↦
        rw miss (record { same_id = refl; same_name = refl; same_args = refl; after = inr refl })
  ]

  abbrev kept : List Message
  kept = map (relink gone ms) (filter (λ m. not (gone m)) ms)

  kept-member : (b' : Message) → Memᴰ b' kept → (b : Message) × Memᴰ b ms × Kept b b'
  kept-member b' k =
      let (b, kb, e) = Memᴰ-map _ b' _ k in
      (b, (Memᴰ-filter (λ m. not (gone m)) b ms kb).0, subst (Kept b) (sym e) (relink-Kept b))

  chained_kept :
      (a' b' : Message)
      → Memᴰ a' kept
      → Memᴰ b' kept
      → b'.after_message_id ≡ some a'.id
      → a'.id ≢ uuid_nil
      → SameChannel a' b' × (a'.after_message_id ≢ none)
  chained_kept a' b' ka' kb' e nn =
      let (a, ka, va) = kept-member a' ka' in
      let (b, kb, vb) = kept-member b' kb' in
      elim vb.after [
        | inl (_, rb) ↦ absurd (nn (some_injective (sym e ∙ rb)))
        | inr rb ↦
            let ((sn, sa), o) =
              c.chained a b ka kb (sym rb ∙ e ∙ ap some va.same_id) (λ z. nn (va.same_id ∙ z)) in
            (
              (va.same_name ∙ sn ∙ sym vb.same_name, va.same_args ∙ sa ∙ sym vb.same_args),
              (λ z. ground (arith, va.after, o)),
            )
      ]

  has_nil_kept :
      ((m : Message) → m.id ≡ uuid_nil → gone m ≡ false)
      → (b' : Message) × Memᴰ b' kept × (b'.id ≡ uuid_nil) × (b'.after_message_id ≡ none)
  has_nil_kept stays =
      let (n, kn, p, q) = c.has_nil in
      let v = relink-Kept n in
      let s = stays n p in
      (
        relink gone ms n,
        map-Memᴰ _ _ (filter-Memᴰ (λ m. not (gone m)) ms kn (ground arith)),
        v.same_id ∙ p,
        (elim v.after [ inl (o, _) ↦ absurd (o q) | inr r ↦ r ∙ q ]),
      )

  linked_kept :
      has_dangling kept ≡ false
      → (a : Message) (i : ℕ) → Memᴰ a kept
      → a.after_message_id ≡ some i
      → (b : Message) × Memᴰ b kept × (b.id ≡ i)
  linked_kept h a i ka e =
      let linked = none_of_any (λ m. not (is_linked kept m)) kept a h ka in
      let (b, kb, p) = Memᴰ-any (λ n. n.id == i) kept (ground arith) in (b, kb, (==_iff b.id i).0 p)

  delete_where-ok :
      (ms' : List Message)
      → delete_where gone ms ≡ ok ms'
      → (ms' ≡ kept) × (has_conflict kept ≡ false) × (has_dangling kept ≡ false)
  unfolding delete_where
  delete_where-ok ms' e = ground arith

  relink_id : (b : Message) → (relink gone ms b).id ≡ b.id
  relink_id b = (relink-Kept b).same_id

  pub delete_where-IsConsistent :
      (ms' : List Message)
      → ((m : Message) → m.id ≡ uuid_nil → gone m ≡ false)
      → delete_where gone ms ≡ ok ms'
      → IsConsistent ms'
  delete_where-IsConsistent ms' stays e =
      let (p, u, l) = delete_where-ok ms' e in
      subst IsConsistent (sym p) (record {
        distinct = Distinct-map _ _ relink_id (Pairwise-filter _ _ ms c.distinct);
        unique = λ a b ka kb ne s i. no_conflict kept a b i u ka kb ne s;
        chained = chained_kept;
        linked = linked_kept l;
        has_nil = has_nil_kept stays;
      })
