-- ===== src/Store/Consistent/Insert.antt =====
-- The insertion of one message by itself, as `spawn` inserts it.
use mathlib.Core.Bool.{false≢true}
use sqlxmq.Prelude.{
  ℕ, String, ◌≡◌, ◌≢◌, sym, ap, ◌∙◌, ◌⊎◌, subst, inl, inr, true, false, List, [], ◌∷◌, none, some,
  ◌==◌, ==_iff, ltb, any, filter, Memᴰ, All-of_Memᴰ, none_of_any, Memᴰ-filter, str_eq_iff, arith,
  Bool-cases, Option-cases, ok, >>=-eq-ok, ok_injective, some_injective, not-none-some,
}
use sqlxmq.Store.{Message, uuid_nil, conflicts}
use sqlxmq.Store.Insert.{
  NewMessage, newest, is_tail, latest_message, lag, after_of, message_row, insert_message,
  insert_messages,
}
use sqlxmq.Store.Consistent.{SameChannel, IsConsistent, →conflicts, Distinct-eq}

pub newest-Memᴰ : (ms : List Message) (m : Message) → newest ms ≡ some m → Memᴰ m ms
unfolding newest
newest-Memᴰ [] m e = absurd (not-none-some e)
newest-Memᴰ (x ∷ xs) m e = elim (Option-cases (newest xs)) [
  | inl p ↦ Memᴰ.head (sym (some_injective (rw (p, newest) at e)))
  | inr (y, p) ↦ elim (Bool-cases (ltb x.created_at y.created_at)) [
    | inl b ↦ Memᴰ.tail (newest-Memᴰ xs m (p ∙ ground arith))
    | inr b ↦ Memᴰ.head (ground arith)
  ]
]

-- An ordered message of the channel of `r`.
pub record Precedes (ms : List Message) (x r : Message) : Type 0 where
  pub member : Memᴰ x ms
  pub same : SameChannel x r
  pub ordered : x.after_message_id ≢ none

is_tail-Precedes :
    (name args : String) (ms : List Message) (x r : Message)
    → r.channel_name ≡ name
    → r.channel_args ≡ args
    → Memᴰ x ms
    → is_tail name args ms x ≡ true
    → Precedes ms x r
unfolding is_tail
is_tail-Precedes name args ms x r p q k h = record {
  member = k;
  same = (
    ground (arith, str_eq_iff x.channel_name name),
    ground (arith, str_eq_iff x.channel_args args, str_eq_iff x.channel_name name),
  );
  ordered = λ e. ground arith;
}

latest_message_cases :
    (name args : String) (ms : List Message) (r : Message)
    → r.channel_name ≡ name
    → r.channel_args ≡ args
    → (latest_message name args ms ≡ uuid_nil)
      ⊎ ((x : Message) × Precedes ms x r × (latest_message name args ms ≡ x.id))
unfolding latest_message
latest_message_cases name args ms r p q =
    elim (Option-cases (newest (filter (is_tail name args ms) ms))) [
      | inl e ↦ inl (rw (e, latest_message))
      | inr (x, e) ↦
          let (k, h) = Memᴰ-filter (is_tail name args ms) x ms (newest-Memᴰ _ x e) in
          inr (x, is_tail-Precedes name args ms x r p q k h, rw (e, latest_message))
    ]

pub lag_alone : (m : NewMessage) → lag m (m ∷ []) ≡ none
unfolding lag
lag_alone m = ground arith

-- What a new row follows: none, the nil message, or an ordered message of its channel.
abbrev pub Follows : List Message → Message → Type 0
Follows ms r =
    (r.after_message_id ≡ none)
    ⊎ (r.after_message_id ≡ some uuid_nil)
    ⊎ ((x : Message) × Precedes ms x r × (r.after_message_id ≡ some x.id))

after_of-Follows :
    (m : NewMessage) (ms : List Message) (r : Message)
    → r.channel_name ≡ m.channel_name
    → r.channel_args ≡ m.channel_args
    → r.after_message_id ≡ after_of (m ∷ []) ms m
    → Follows ms r
unfolding after_of
after_of-Follows m ms r p q e = elim (Bool-cases m.ordered) [
  | inl o ↦
      let e' : r.after_message_id ≡ some (latest_message m.channel_name m.channel_args ms) =
        ground (arith, lag_alone m) in
      elim (latest_message_cases m.channel_name m.channel_args ms r p q) [
        | inl z ↦ inr (inl (e' ∙ ap some z))
        | inr (x, v, z) ↦ inr (inr (x, v, e' ∙ ap some z))
      ]
  | inr o ↦ inl (ground arith)
]

-- A row that the constraints let into the table.
pub record Fits (ms : List Message) (r : Message) : Type 0 where
  pub fresh : (b : Message) → Memᴰ b ms → b.id ≢ r.id
  pub free :
      (b : Message) (i : ℕ)
      → Memᴰ b ms
      → SameChannel r b
      → r.after_message_id ≡ some i
      → ¬ (b.after_message_id ≡ some i)
  pub follows : Follows ms r

module _ (ms : List Message) (r : Message) (c : IsConsistent ms) (f : Fits ms r) where
  -- Who a row follows, if it is `a`, is not the new row.
  not-follows_new : (i : ℕ) → r.after_message_id ≡ some i → i ≡ r.id → i ≡ uuid_nil
  not-follows_new i e p = elim f.follows [
    | inl q ↦ absurd (not-none-some (sym q ∙ e))
    | inr (inl q) ↦ some_injective (sym e ∙ q)
    | inr (inr (x, v, q)) ↦ absurd (f.fresh x v.member (some_injective (sym q ∙ e) ∙ p))
  ]

  unique_new :
      (a b : Message)
      → Memᴰ a (r ∷ ms)
      → Memᴰ b (r ∷ ms)
      → a.id ≢ b.id
      → SameChannel a b
      → (i : ℕ) → a.after_message_id ≡ some i
      → ¬ (b.after_message_id ≡ some i)
  unique_new a b (Memᴰ.head p) (Memᴰ.head q) ne s i ea eb =
      ne (ap (λ (x : Message). x.id) (p ∙ sym q))
  unique_new a b (Memᴰ.head p) (Memᴰ.tail kb) ne s i ea eb =
      f.free b i kb (subst (λ x. SameChannel x b) p s)
        (subst (λ (x : Message). x.after_message_id ≡ some i) p ea) eb
  unique_new a b (Memᴰ.tail ka) (Memᴰ.head q) ne s i ea eb =
      let s' = subst (λ x. SameChannel a x) q s in
      f.free a i ka (sym s'.0, sym s'.1) (subst (λ (x : Message). x.after_message_id ≡ some i) q eb)
        ea
  unique_new a b (Memᴰ.tail ka) (Memᴰ.tail kb) ne s i ea eb = c.unique a b ka kb ne s i ea eb

  chained_to_new :
      (a : Message)
      → Memᴰ a ms
      → r.after_message_id ≡ some a.id
      → a.id ≢ uuid_nil
      → SameChannel a r × (a.after_message_id ≢ none)
  chained_to_new a ka e nn = elim f.follows [
    | inl q ↦ absurd (not-none-some (sym q ∙ e))
    | inr (inl q) ↦ absurd (nn (some_injective (sym e ∙ q)))
    | inr (inr (x, v, q)) ↦
        let same = Distinct-eq ms x a c.distinct v.member ka (some_injective (sym q ∙ e)) in
        (
          subst (λ y. SameChannel y r) same v.same,
          subst (λ (y : Message). y.after_message_id ≢ none) same v.ordered,
        )
  ]

  chained_new :
      (a b : Message)
      → Memᴰ a (r ∷ ms)
      → Memᴰ b (r ∷ ms)
      → b.after_message_id ≡ some a.id
      → a.id ≢ uuid_nil
      → SameChannel a b × (a.after_message_id ≢ none)
  chained_new a b (Memᴰ.head p) (Memᴰ.head q) e nn = absurd (
      nn (
        not-follows_new a.id (subst (λ (x : Message). x.after_message_id ≡ some a.id) q e)
          (ap (λ (x : Message). x.id) p)))
  chained_new a b (Memᴰ.head p) (Memᴰ.tail kb) e nn =
      let (x, kx, z) = c.linked b a.id kb e in
      absurd (f.fresh x kx (z ∙ ap (λ (x : Message). x.id) p))
  chained_new a b (Memᴰ.tail ka) (Memᴰ.head q) e nn =
      let (s, o) =
        chained_to_new a ka (subst (λ (x : Message). x.after_message_id ≡ some a.id) q e) nn in
      (subst (λ x. SameChannel a x) (sym q) s, o)
  chained_new a b (Memᴰ.tail ka) (Memᴰ.tail kb) e nn = c.chained a b ka kb e nn

  linked_new :
      (a : Message) (i : ℕ)
      → Memᴰ a (r ∷ ms)
      → a.after_message_id ≡ some i
      → (b : Message) × Memᴰ b (r ∷ ms) × (b.id ≡ i)
  linked_new a i (Memᴰ.head p) e =
      let e' = subst (λ (x : Message). x.after_message_id ≡ some i) p e in
      elim f.follows [
        | inl q ↦ absurd (not-none-some (sym q ∙ e'))
        | inr (inl q) ↦
            let (n, kn, z, _) = c.has_nil in (n, Memᴰ.tail kn, z ∙ some_injective (sym q ∙ e'))
        | inr (inr (x, v, q)) ↦ (x, Memᴰ.tail v.member, some_injective (sym q ∙ e'))
      ]
  linked_new a i (Memᴰ.tail ka) e = let (b, kb, z) = c.linked a i ka e in (b, Memᴰ.tail kb, z)

  pub new-IsConsistent : IsConsistent (r ∷ ms)
  new-IsConsistent = record {
    distinct = (All-of_Memᴰ _ ms f.fresh, c.distinct);
    unique = unique_new;
    chained = chained_new;
    linked = linked_new;
    has_nil = let (n, kn, p, q) = c.has_nil in (n, Memᴰ.tail kn, p, q);
  }

insert_message-ok :
    (r : Message) (ms ms' : List Message)
    → insert_message r ms ≡ ok ms'
    → (ms' ≡ r ∷ ms) × (any (λ n. n.id == r.id) ms ≡ false) × (any (conflicts r) ms ≡ false)
unfolding insert_message
insert_message-ok r ms ms' e = ground arith

pub message_row-ok :
    (now : ℕ) (new : List NewMessage) (ms : List Message) (m : NewMessage) (r : Message)
    → message_row now new ms m ≡ ok r
    → (r.channel_name ≡ m.channel_name)
      × (r.channel_args ≡ m.channel_args)
      × (r.after_message_id ≡ after_of new ms m)
      × (r.id ≡ m.id)
unfolding message_row
message_row-ok now new ms m r e = ground arith

-- A message inserted by itself: one more row, and the table stays consistent.
pub insert_alone :
    (now : ℕ) (m : NewMessage) (ms ms' : List Message)
    → IsConsistent ms
    → insert_messages now (m ∷ []) ms (m ∷ []) ms ≡ ok ms'
    → IsConsistent ms' × (r : Message) × (ms' ≡ r ∷ ms) × (r.id ≡ m.id)
unfolding insert_messages
insert_alone now m ms ms' c e =
    let (r, e₁, e₂) = >>=-eq-ok (message_row now (m ∷ []) ms m) _ e in
    let (ms₂, e₃, e₄) = >>=-eq-ok (insert_message r ms) _ e₂ in
    let (p, fresh, free) = insert_message-ok r ms ms₂ e₃ in
    let (name, args, after, same) = message_row-ok now (m ∷ []) ms m r e₁ in
    let q = sym (ok_injective e₄) ∙ p in
    (
      subst IsConsistent (sym q) (
          new-IsConsistent ms r c (record {
            fresh = λ b k z.
                false≢true
                  (sym (none_of_any (λ n. n.id == r.id) ms b fresh k) ∙ (==_iff b.id r.id).1 z);
            free = λ b i k s x y.
                false≢true (sym (none_of_any (conflicts r) ms b free k) ∙ →conflicts r b i s x y);
            follows = after_of-Follows m ms r name args after;
          })),
      r,
      q,
      same,
    )
