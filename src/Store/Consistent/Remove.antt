-- ===== src/Store/Consistent/Remove.antt =====
-- The deletion of a message that polls may return, and the table that it leaves.
use mathlib.Core.Bool.{false≢true}
use sqlxmq.Prelude.{
  subst, ℕ, ◌≡◌, ◌≢◌, refl, sym, ap, ◌∙◌, ◌⊎◌, inl, inr, Bool, true, false, ◌&&◌, not, List, [],
  ◌∷◌, map, none, some, ◌==◌, ==_iff, sql_eq, any, elem, filter, Memᴰ, Memᴰ-any, Memᴰ-filter,
  Memᴰ-map, any_of_Memᴰ, any-false, filter-Memᴰ, map-Memᴰ, Pairwise-filter, some_injective,
  not-none-some, arith, Bool-cases, ok,
}
use sqlxmq.Store.{Message, uuid_nil, uuid_exists}
use sqlxmq.Store.Poll.Claim.{Distinct, Without}
use sqlxmq.Store.Remove.{relink, delete_where}
use sqlxmq.Store.Consistent.{
  SameChannel, IsConsistent, has_conflict-IsConsistent, has_dangling-IsConsistent,
}

Without-map :
    (f : Message → Message) (id : ℕ) (ms : List Message)
    → ((m : Message) → (f m).id ≡ m.id)
    → Without id ms
    → Without id (map f ms)
Without-map f id [] same w = tt
Without-map f id (m ∷ ms) same w = ((λ p. w.0 (sym (same m) ∙ p)), Without-map f id ms same w.1)

pub Distinct-map :
    (f : Message → Message) (ms : List Message)
    → ((m : Message) → (f m).id ≡ m.id)
    → Distinct ms
    → Distinct (map f ms)
Distinct-map f [] same d = tt
Distinct-map f (m ∷ ms) same d =
    (rw (same m) (Without-map f m.id ms same d.0), Distinct-map f ms same d.1)

-- What `ON DELETE SET DEFAULT` makes of a message that is kept when the message `id` goes.
pub record Kept (id : ℕ) (b b' : Message) : Type 0 where
  pub same_id : b'.id ≡ b.id
  pub same_name : b'.channel_name ≡ b.channel_name
  pub same_args : b'.channel_args ≡ b.channel_args
  pub after :
      ((b.after_message_id ≡ some id) × (b'.after_message_id ≡ some uuid_nil))
      ⊎ ((b.after_message_id ≢ some id) × (b'.after_message_id ≡ b.after_message_id))

module _ (id : ℕ) (ms : List Message) (c : IsConsistent ms) where
  abbrev gone : Message → Bool
  gone m = elem m.id (id ∷ [])

  follows_gone :
      (b d : Message)
      → (gone d && sql_eq b.after_message_id d.id) ≡ true
      → b.after_message_id ≡ some id
  follows_gone b d h = ground arith

  pub relink-Kept : (b : Message) → Memᴰ b ms → Kept id b (relink gone ms b)
  unfolding relink
  relink-Kept b k = elim (Bool-cases (any (λ d. gone d && sql_eq b.after_message_id d.id) ms)) [
    | inl hit ↦
        let (d, kd, h) = Memᴰ-any _ ms hit in
        rw hit (record {
          same_id = refl;
          same_name = refl;
          same_args = refl;
          after = inl (follows_gone b d h, refl);
        })
    | inr miss ↦ rw miss (record {
      same_id = refl;
      same_name = refl;
      same_args = refl;
      after = inr (stays miss, refl);
    })
  ]
    where
      stays :
          any (λ d. gone d && sql_eq b.after_message_id d.id) ms ≡ false
          → b.after_message_id ≢ some id
      stays miss e =
          let (d, kd, p) = c.linked b id k e in
          let found =
            any_of_Memᴰ (λ (d : Message). gone d && sql_eq b.after_message_id d.id) ms kd
              (ground arith) in
          false≢true (sym miss ∙ found)

  relink_id : (b : Message) → (relink gone ms b).id ≡ b.id
  unfolding relink
  relink_id b = ground arith

  abbrev pub kept : List Message
  kept = map (relink gone ms) (filter (λ m. not (gone m)) ms)

  pub kept-member :
      (b' : Message) → Memᴰ b' kept → (b : Message) × Memᴰ b ms × (b.id ≢ id) × Kept id b b'
  kept-member b' k =
      let (b, kb, e) = Memᴰ-map _ b' _ k in
      let (kb', stays) = Memᴰ-filter (λ m. not (gone m)) b ms kb in
      (b, kb', (λ p. ground arith), subst (Kept id b) (sym e) (relink-Kept b kb'))

  pub member-kept : (b : Message) → Memᴰ b ms → b.id ≢ id → Memᴰ (relink gone ms b) kept
  member-kept b k ne = map-Memᴰ _ _ (filter-Memᴰ (λ m. not (gone m)) ms k (ground arith))

  -- The message that a relinked one followed stood at the head of the channel.
  module _ (not_nil : id ≢ uuid_nil)
      (head : (m : Message) → Memᴰ m ms → m.id ≡ id → uuid_exists m.after_message_id ≡ false) where
    old_head :
        (b : Message)
        → Memᴰ b ms
        → b.after_message_id ≡ some id
        → (m : Message) × Memᴰ m ms
          × (m.id ≡ id)
          × SameChannel m b
          × (m.after_message_id ≡ some uuid_nil)
    old_head b k e =
        let (m, km, p) = c.linked b id k e in
        let (same, ordered) = c.chained m b km k (rw p e) (λ q. not_nil (sym p ∙ q)) in
        let free = head m km p in (m, km, p, same, ground arith)

    -- No message that is kept was at the head of the channel of a relinked one.
    no_other_head :
        (a b : Message)
        → Memᴰ a ms
        → Memᴰ b ms
        → b.id ≢ id
        → SameChannel a b
        → a.after_message_id ≡ some id
        → ¬ (b.after_message_id ≡ some uuid_nil)
    no_other_head a b ka kb ne s e q =
        let (m, km, p, (sn, sa), r) = old_head a ka e in
        c.unique m b km kb (λ z. ne (sym z ∙ p)) (sn ∙ s.0, sa ∙ s.1) uuid_nil r q

    unique_kept :
        (a' b' : Message)
        → Memᴰ a' kept
        → Memᴰ b' kept
        → a'.id ≢ b'.id
        → SameChannel a' b'
        → (i : ℕ) → a'.after_message_id ≡ some i
        → ¬ (b'.after_message_id ≡ some i)
    unique_kept a' b' ka' kb' ne (sn, sa) i p q =
        let (a, ka, na, va) = kept-member a' ka' in
        let (b, kb, nb, vb) = kept-member b' kb' in
        let ne' = λ (z : a.id ≡ b.id). ne (va.same_id ∙ z ∙ sym vb.same_id) in
        let s : SameChannel a b =
          (sym va.same_name ∙ sn ∙ vb.same_name, sym va.same_args ∙ sa ∙ vb.same_args) in
        elim va.after [
          | inl (ea, ra) ↦ elim vb.after [
            | inl (eb, rb) ↦ c.unique a b ka kb ne' s id ea eb
            | inr (eb, rb) ↦ no_other_head a b ka kb nb s ea (sym rb ∙ q ∙ sym p ∙ ra)
          ]
          | inr (ea, ra) ↦ elim vb.after [
            | inl (eb, rb) ↦
                no_other_head b a kb ka na (sym s.0, sym s.1) eb (sym ra ∙ p ∙ sym q ∙ rb)
            | inr (eb, rb) ↦ c.unique a b ka kb ne' s i (sym ra ∙ p) (sym rb ∙ q)
          ]
        ]

    chained_kept :
        (a' b' : Message)
        → Memᴰ a' kept
        → Memᴰ b' kept
        → b'.after_message_id ≡ some a'.id
        → a'.id ≢ uuid_nil
        → SameChannel a' b' × (a'.after_message_id ≢ none)
    chained_kept a' b' ka' kb' e nn =
        let (a, ka, na, va) = kept-member a' ka' in
        let (b, kb, nb, vb) = kept-member b' kb' in
        elim vb.after [
          | inl (eb, rb) ↦ absurd (nn (some_injective (sym e ∙ rb)))
          | inr (eb, rb) ↦
              let ((sn, sa), o) =
                c.chained a b ka kb (sym rb ∙ e ∙ ap some va.same_id) (λ z. nn (va.same_id ∙ z)) in
              (
                (va.same_name ∙ sn ∙ sym vb.same_name, va.same_args ∙ sa ∙ sym vb.same_args),
                (λ z. ground (arith, va.after, o)),
              )
        ]

    linked_kept :
        (a' : Message) (i : ℕ)
        → Memᴰ a' kept
        → a'.after_message_id ≡ some i
        → (b' : Message) × Memᴰ b' kept × (b'.id ≡ i)
    linked_kept a' i ka' e =
        let (a, ka, na, va) = kept-member a' ka' in
        elim va.after [
          | inl (ea, ra) ↦
              let (n, kn, p, _) = c.has_nil in
              (
                relink gone ms n,
                member-kept n kn (λ z. not_nil (sym z ∙ p)),
                (relink-Kept n kn).same_id ∙ p ∙ some_injective (sym ra ∙ e),
              )
          | inr (ea, ra) ↦
              let (b, kb, p) = c.linked a i ka (sym ra ∙ e) in
              (
                relink gone ms b,
                member-kept b kb (λ z. ea (sym ra ∙ e ∙ ap some (sym p ∙ z))),
                (relink-Kept b kb).same_id ∙ p,
              )
        ]

    has_nil_kept : (b' : Message) × Memᴰ b' kept × (b'.id ≡ uuid_nil) × (b'.after_message_id ≡ none)
    has_nil_kept =
        let (n, kn, p, q) = c.has_nil in
        let v = relink-Kept n kn in
        (
          relink gone ms n,
          member-kept n kn (λ z. not_nil (sym z ∙ p)),
          v.same_id ∙ p,
          (elim v.after [ inl (e, _) ↦ absurd (not-none-some (sym q ∙ e)) | inr (_, r) ↦ r ∙ q ]),
        )

    pub kept-IsConsistent : IsConsistent kept
    kept-IsConsistent = record {
      distinct = Distinct-map _ _ relink_id (Pairwise-filter _ _ ms c.distinct);
      unique = unique_kept;
      chained = chained_kept;
      linked = linked_kept;
      has_nil = has_nil_kept;
    }

    -- The message `id` is deleted, whatever follows it.
    pub delete_where_head : delete_where gone ms ≡ ok kept
    unfolding delete_where
    delete_where_head =
        rw
          (has_conflict-IsConsistent kept-IsConsistent, has_dangling-IsConsistent kept-IsConsistent)

  -- It is gone.
  pub kept-without : any (λ n. n.id == id) kept ≡ false
  kept-without = any-false _ kept λ b' k.
      let (b, kb, ne, v) = kept-member b' k in
      elim (Bool-cases (b'.id == id)) [
        | inl hit ↦ absurd (ne (sym v.same_id ∙ (==_iff b'.id id).0 hit))
        | inr miss ↦ miss
      ]
