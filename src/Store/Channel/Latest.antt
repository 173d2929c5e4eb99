-- ===== src/Store/Channel/Latest.antt =====
-- mq_latest_message at a channel whose ordered messages make one sequence.
use mathlib.Core.Bool.{false≢true}
use sqlxmq.Prelude.{
  ℕ, String, ◌≡◌, ◌≢◌, refl, sym, ap, ◌∙◌, ◌⊎◌, subst, inl, inr, true, false, List, [], ◌∷◌, Option,
  none, some, str_eq_iff, any, any-false, filter, Memᴰ, none_of_any, Memᴰ-filter, filter-Memᴰ,
  Bool-cases, Option-cases, sql_eq, arith,
}
use sqlxmq.Store.{Message, uuid_nil}
use sqlxmq.Store.Insert.{newest, is_tail, latest_message}
use sqlxmq.Store.Consistent.{IsConsistent}
use sqlxmq.Store.Consistent.Insert.{newest-Memᴰ}
use sqlxmq.Store.Channel.{Follows, IsQueue, Chain, last_or}
use sqlxmq.Store.Channel.Append.{last_or-eq, last_or-link}
use sqlxmq.Store.Channel.Table.{Follows-nil}

newest-none : (ms : List Message) → newest ms ≡ none → ms ≡ []
unfolding newest
newest-none [] e = refl
newest-none (m ∷ ms) e = elim (Option-cases (newest ms)) [
  | inl p ↦ ground arith
  | inr (n, p) ↦ absurd (ground arith)
]

-- The message that is found, if there is one.
latest_found :
    (name args : String) (ms : List Message)
    → (((m : Message) → Memᴰ m ms → is_tail name args ms m ≡ false)
        × (latest_message name args ms ≡ uuid_nil))
      ⊎ ((x : Message) × Memᴰ x ms
          × (is_tail name args ms x ≡ true)
          × (latest_message name args ms ≡ x.id))
unfolding latest_message
latest_found name args ms = elim (Option-cases (newest (filter (is_tail name args ms) ms))) [
  | inl e ↦
      let nothing = newest-none _ e in
      inl (
        (λ m k. elim (Bool-cases (is_tail name args ms m)) [
          | inl h ↦
              absurd
                (no_member (subst (Memᴰ m) nothing (filter-Memᴰ (is_tail name args ms) ms k h)))
          | inr h ↦ h
        ]),
        rw (e, latest_message),
      )
  | inr (x, e) ↦
      let (k, h) = Memᴰ-filter (is_tail name args ms) x ms (newest-Memᴰ _ x e) in
      inr (x, k, h, rw (e, latest_message))
]
  where
    no_member : {m : Message} → Memᴰ m [] → ⊥
    no_member k = elim k [ ]

sql_eq→ : (o : Option ℕ) (i : ℕ) → sql_eq o i ≡ true → o ≡ some i
sql_eq→ o i h = ground arith

module _ {ms : List Message} {name args : String} (c : IsConsistent ms) where
  no_follower :
      (i j : ℕ) (p : Follows ms name args i j)
      → p.message.id ≢ uuid_nil
      → ((k : ℕ) → ¬ Follows ms name args j k)
      → (n : Message) → Memᴰ n ms
      → sql_eq n.after_message_id p.message.id ≡ false
  no_follower i j p nn z n k = elim (Bool-cases (sql_eq n.after_message_id p.message.id)) [
    | inl h ↦
        let e = sql_eq→ n.after_message_id p.message.id h in
        let ((sn, sa), _) = c.chained p.message n p.member k e nn in
        absurd (
          z n.id (record {
            message = n;
            member = k;
            channel = (sym sn ∙ p.channel.0, sym sa ∙ p.channel.1);
            after = e ∙ ap some p.same;
            same = refl;
          }))
    | inr h ↦ h
  ]

  -- A message of the order that none follows.
  tail-is_tail :
      (i j : ℕ) (p : Follows ms name args i j)
      → ((k : ℕ) → ¬ Follows ms name args j k)
      → is_tail name args ms p.message ≡ true
  unfolding is_tail
  tail-is_tail i j p z =
      let nn : p.message.id ≢ uuid_nil =
        λ e. Follows-nil c i (subst (Follows ms name args i) (sym p.same ∙ e) p) in
      let free : any (λ n. sql_eq n.after_message_id p.message.id) ms ≡ false =
        any-false (λ n. sql_eq n.after_message_id p.message.id) ms (no_follower i j p nn z) in
      ground (
        arith,
        str_eq_iff p.message.channel_name name,
        str_eq_iff p.message.channel_args args,
        p.channel,
        p.after,
      )

  is_tail-last :
      (x : Message) → is_tail name args ms x ≡ true → (k : ℕ) → ¬ Follows ms name args x.id k
  unfolding is_tail
  is_tail-last x h k p =
      let free =
        none_of_any (λ n. sql_eq n.after_message_id x.id) ms p.message (ground arith) p.member in
      ground (arith, p.after)

  is_tail-Follows :
      (x : Message)
      → Memᴰ x ms
      → is_tail name args ms x ≡ true
      → (i : ℕ) × Follows ms name args i x.id
  unfolding is_tail
  is_tail-Follows x k h = elim (Option-cases x.after_message_id) [
    | inl e ↦ absurd (ground arith)
    | inr (i, e) ↦ (
      i,
      record {
        message = x;
        member = k;
        channel = (
          ground (arith, str_eq_iff x.channel_name name),
          ground (arith, str_eq_iff x.channel_args args),
        );
        after = e;
        same = refl;
      },
    )
  ]

  empty_last :
      (ids : List ℕ)
      → Chain (Follows ms name args) uuid_nil ids
      → ((m : Message) → Memᴰ m ms → is_tail name args ms m ≡ false)
      → uuid_nil ≡ last_or uuid_nil ids
  empty_last [] h nothing = refl
  empty_last (k ∷ ids) h nothing =
      let ((i, p), z) = last_or-link k ids h in
      absurd (false≢true (sym (nothing p.message p.member) ∙ tail-is_tail i _ p z))

  -- A new ordered message of the channel is put behind the last one.
  pub latest_message-last_or :
      (ids : List ℕ) → IsQueue ms name args ids → latest_message name args ms ≡ last_or uuid_nil ids
  latest_message-last_or ids q = elim (latest_found name args ms) [
    | inl (nothing, e) ↦ e ∙ empty_last ids q.chain nothing
    | inr (x, k, h, e) ↦
        let (i, p) = is_tail-Follows x k h in
        e ∙ last_or-eq x.id q.chain (q.covers i x.id p) (is_tail-last x h)
  ]
