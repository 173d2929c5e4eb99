-- ===== src/Store/Consistent/Clear.antt =====
-- The clearing of channels, and the constraints of the table.
use mathlib.Core.Bool.{false≢true}
use sqlxmq.Prelude.{
  ℕ, String, ◌≡◌, ◌≢◌, sym, ap, ◌∙◌, subst, inl, inr, Bool, true, false, ◌&&◌, not, List, some,
  ◌==◌, str_eq, sql_eq, any, filter, All, All-of_Memᴰ, Memᴰ, Memᴰ-any, Memᴰ-filter, filter-Memᴰ,
  map_same, Pairwise-filter, not-none-some, arith, Bool-cases, ok,
}
use sqlxmq.Store.{Message, Payload, Database, uuid_nil}
use sqlxmq.Store.Remove.{relink, delete_where, clear, clear_all}
use sqlxmq.Store.Consistent.{
  SameChannel, IsConsistent, Distinct-eq, has_conflict-IsConsistent, has_dangling-IsConsistent,
}

module _ (gone : Message → Bool) (ms : List Message) (c : IsConsistent ms)
    (nil_stays : (m : Message) → m.id ≡ uuid_nil → gone m ≡ false)
    (closed : (d b : Message)
      → Memᴰ d ms
      → Memᴰ b ms
      → gone d ≡ true
      → SameChannel d b
      → b.id ≢ uuid_nil
      → gone b ≡ true) where
  abbrev pub rest : List Message
  rest = filter (λ m. not (gone m)) ms

  rest-member : (b : Message) → Memᴰ b rest → Memᴰ b ms × (gone b ≡ false)
  rest-member b k = let (kb, e) = Memᴰ-filter (λ m. not (gone m)) b ms k in (kb, ground arith)

  -- A message that stays follows none that goes.
  follows_kept :
      (d b : Message)
      → Memᴰ d ms
      → Memᴰ b ms
      → gone b ≡ false
      → b.after_message_id ≡ some d.id
      → gone d ≡ false
  follows_kept d b kd kb e p = elim (Bool-cases (gone d)) [
    | inl hit ↦
        let nd = λ (z : d.id ≡ uuid_nil). false≢true (sym (nil_stays d z) ∙ hit) in
        let (same, _) = c.chained d b kd kb p nd in
        absurd (false≢true (sym e ∙ closed d b kd kb hit same (not_nil b kb p)))
    | inr miss ↦ miss
  ]
    where
      not_nil : {i : ℕ} (b : Message) → Memᴰ b ms → b.after_message_id ≡ some i → b.id ≢ uuid_nil
      not_nil b kb q z =
          let (n, kn, p, r) = c.has_nil in
          let same = Distinct-eq ms n b c.distinct kn kb (p ∙ sym z) in
          not-none-some (sym r ∙ ap (λ (x : Message). x.after_message_id) same ∙ q)

  linked_rest :
      (a : Message) (i : ℕ)
      → Memᴰ a rest
      → a.after_message_id ≡ some i
      → (b : Message) × Memᴰ b rest × (b.id ≡ i)
  linked_rest a i k e =
      let (ka, stays) = rest-member a k in
      let (b, kb, p) = c.linked a i ka e in
      let kept = follows_kept b a kb ka stays (e ∙ ap some (sym p)) in
      (b, filter-Memᴰ (λ m. not (gone m)) ms kb (ground arith), p)

  pub rest-IsConsistent : IsConsistent rest
  rest-IsConsistent = record {
    distinct = Pairwise-filter _ _ ms c.distinct;
    unique = λ a b ka kb. c.unique a b (rest-member a ka).0 (rest-member b kb).0;
    chained = λ a b ka kb. c.chained a b (rest-member a ka).0 (rest-member b kb).0;
    linked = linked_rest;
    has_nil =
        let (n, kn, p, q) = c.has_nil in
        (n, filter-Memᴰ (λ m. not (gone m)) ms kn (let s = nil_stays n p in ground arith), p, q);
  }

  relink-rest : (b : Message) → Memᴰ b rest → relink gone ms b ≡ b
  unfolding relink
  relink-rest b k =
      let (kb, stays) = rest-member b k in
      elim (Bool-cases (any (λ d. gone d && sql_eq b.after_message_id d.id) ms)) [
        | inl hit ↦
            let (d, kd, h) = Memᴰ-any _ ms hit in
            let free = follows_kept d b kd kb stays (ground arith) in
            absurd (false≢true (sym free ∙ ground arith))
        | inr miss ↦ rw miss
      ]

  pub delete_where_closed : delete_where gone ms ≡ ok rest
  unfolding delete_where
  delete_where_closed = rw (
    map_same (relink gone ms) rest relink-rest,
    has_conflict-IsConsistent rest-IsConsistent,
    has_dangling-IsConsistent rest-IsConsistent,
  )

in_channels : List String → Message → Bool
in_channels names m = any (str_eq m.channel_name) names && not (m.id == uuid_nil)

in_channels_closed :
    (names : List String) (d b : Message)
    → in_channels names d ≡ true
    → SameChannel d b
    → b.id ≢ uuid_nil
    → in_channels names b ≡ true
unfolding in_channels
in_channels_closed names d b h s nb =
    subst (λ n. (any (str_eq n) names && not (b.id == uuid_nil)) ≡ true) s.0 (ground arith)

nil_stays_in_channels :
    (names : List String) (m : Message) → m.id ≡ uuid_nil → in_channels names m ≡ false
unfolding in_channels
nil_stays_in_channels names m e = ground arith

not_nil_message : Message → Bool
not_nil_message m = not (m.id == uuid_nil)

nil_stays : (m : Message) → m.id ≡ uuid_nil → not_nil_message m ≡ false
unfolding not_nil_message
nil_stays m e = ground arith

others_go : (m : Message) → m.id ≢ uuid_nil → not_nil_message m ≡ true
unfolding not_nil_message
others_go m h = ground arith

only_nil : (m : Message) → not (not_nil_message m) ≡ true → m.id ≡ uuid_nil
unfolding not_nil_message
only_nil m h = ground arith

-- What a table keeps of the payloads when the messages `gone` go.
abbrev pub payloads_left : (Message → Bool) → Database → List Payload
payloads_left gone db =
    filter (λ (p : Payload). not (any (λ (m : Message). gone m && p.id == m.id) db.messages))
      db.payloads

-- In a consistent table, clearing channels succeeds. It takes out the messages of those channels, all but the nil
-- message, with their payloads, leaves every other message as it was, and keeps the table
-- consistent.
pub clear_lem :
    (names : List String) (db : Database)
    → IsConsistent db.messages
    → let gone = λ (m : Message). any (str_eq m.channel_name) names && not (m.id == uuid_nil) in
      let left = filter (λ (m : Message). not (gone m)) db.messages in
      (clear names db ≡ ok (record db { messages = left; payloads = payloads_left gone db }))
      × IsConsistent left
unfolding clear in_channels
clear_lem names db c =
    let e =
      delete_where_closed (in_channels names) db.messages c (nil_stays_in_channels names)
        (λ d b _ _ h s nb. in_channels_closed names d b h s nb) in
    (
      rw e,
      rest-IsConsistent (in_channels names) db.messages c (nil_stays_in_channels names)
          (λ d b _ _ h s nb. in_channels_closed names d b h s nb),
    )

-- In a consistent table, clearing all succeeds. It takes out every message but the nil one, with
-- their payloads, leaves the nil message as it was, and keeps the table consistent.
pub clear_all_lem :
    (db : Database)
    → IsConsistent db.messages
    → let gone = λ (m : Message). not (m.id == uuid_nil) in
      let left = filter (λ (m : Message). not (gone m)) db.messages in
      (clear_all db ≡ ok (record db { messages = left; payloads = payloads_left gone db }))
      × IsConsistent left
      × All (λ m. m.id ≡ uuid_nil) left
unfolding clear_all not_nil_message
clear_all_lem db c =
    let stays = λ (m : Message) (e : m.id ≡ uuid_nil). nil_stays m e in
    let closed =
      λ (d b : Message) (kd : Memᴰ d db.messages) (kb : Memᴰ b db.messages)
          (h : not_nil_message d ≡ true) (s : SameChannel d b) (nb : b.id ≢ uuid_nil).
        others_go b nb in
    let e = delete_where_closed not_nil_message db.messages c stays closed in
    (
      rw e,
      rest-IsConsistent not_nil_message db.messages c stays closed,
      All-of_Memᴰ _ _ (λ m k. only_nil m (Memᴰ-filter _ m db.messages k).1),
    )
