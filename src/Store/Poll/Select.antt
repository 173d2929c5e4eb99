-- ===== src/Store/Poll/Select.antt =====
-- What a poll selects and returns.
use sqlxmq.Prelude.{
  ℕ, String, ℤ, ◌≡◌, refl, sym, ◌∙◌, ◌⊎◌, subst, inl, inr, Bool, true, ◌&&◌, List, [], ◌∷◌, map,
  Option, none, some, ◌==◌, ==_iff, str_eq, str_eq_iff, any, elem, filter, All, All-map, All-append,
  All-take, All-Memᴰ, All-of_Memᴰ, Memᴰ, Memᴰ-filter, Memᴰ-any, Memᴰ-map, arith, Bool-cases, ok,
  >>=-eq-ok,
}
use sqlxmq.Store.{Message, Payload, Database, in_channel}
use sqlxmq.Store.Poll.{
  PolledMessage, earlier, is_ready, is_due, subscribes, channels, insert_by_time, sort_by_time,
  channel_messages, active_channels, select_messages, poll, limit, polled_row, wait_row,
  returned_rows,
}
use sqlxmq.Store.Poll.Claim.{Claims, claim_message_id}
use sqlxmq.Store.Poll.Concurrent.{claim_inversion}

abbrev pub Channel : Type 0
Channel = String × String

-- `ORDER BY RANDOM()` gives none but the rows that it is given.
abbrev pub Keeps : (List Channel → List Channel) → Type 1
Keeps shuffle = (P : Channel → Type 0) (xs : List Channel) → All P xs → All P (shuffle xs)

-- The id is that of a message in the table which is ready, and of a channel that was asked for.
abbrev pub IsReadyId : ℕ → Option (List String) → List Message → ℕ → Type 0
IsReadyId now names ms id =
    (m : Message) × Memᴰ m ms × (m.id ≡ id) × (is_ready now m ≡ true) × (subscribes names m ≡ true)

abbrev HasSubscription : Option (List String) → Channel → Type 0
HasSubscription none c = Unit {0}
HasSubscription (some names) c = any (str_eq c.0) names ≡ true

module _ {κ} (P : Message → Type κ) where
  All-insert_by_time :
      (m : Message) (ms : List Message) → P m → All P ms → All P (insert_by_time m ms)
  unfolding insert_by_time
  All-insert_by_time m [] p h = (p, tt)
  All-insert_by_time m (n ∷ ns) p h = elim (Bool-cases (earlier n m)) [
    | inl e ↦ rw e (h.0, All-insert_by_time m ns p h.1)
    | inr e ↦ rw e (p, h)
  ]

  All-sort_by_time : (ms : List Message) → All P ms → All P (sort_by_time ms)
  unfolding sort_by_time
  All-sort_by_time [] h = tt
  All-sort_by_time (m ∷ ms) h = All-insert_by_time m (sort_by_time ms) h.0 (All-sort_by_time ms h.1)

subscribes-HasSubscription :
    (names : Option (List String)) (m : Message)
    → subscribes names m ≡ true
    → HasSubscription names (m.channel_name, m.channel_args)
subscribes-HasSubscription none m h = tt
subscribes-HasSubscription (some names) m h = h

HasSubscription-subscribes :
    (names : Option (List String)) (c : Channel) (m : Message)
    → HasSubscription names c
    → in_channel c.0 c.1 m ≡ true
    → subscribes names m ≡ true
HasSubscription-subscribes none c m h i = refl
HasSubscription-subscribes (some names) c m h i =
    subst (λ n. any (str_eq n) names ≡ true) (ground (arith, str_eq_iff m.channel_name c.0)) h

channels-HasSubscription :
    (names : Option (List String)) (xs : List Message)
    → All (λ m. subscribes names m ≡ true) xs
    → All (HasSubscription names) (channels xs)
unfolding channels
channels-HasSubscription names [] h = tt
channels-HasSubscription names (m ∷ xs) h =
    let rest = channels-HasSubscription names xs h.1 in
    elim (Bool-cases (any (in_channel m.channel_name m.channel_args) xs)) [
      | inl e ↦ rw e rest
      | inr e ↦ rw e (subscribes-HasSubscription names m h.0, rest)
    ]

module _ (now : ℕ) (names : Option (List String)) (ms : List Message) where
  abbrev IsReadyMessage : Message → Type 0
  IsReadyMessage m = IsReadyId now names ms m.id

  ready_in_channel :
      (c : Channel) (m : Message)
      → HasSubscription names c
      → Memᴰ m (filter (λ m. is_ready now m && in_channel c.0 c.1 m) ms)
      → IsReadyMessage m
  ready_in_channel c m h k =
      let (km, e) = Memᴰ-filter (λ m. is_ready now m && in_channel c.0 c.1 m) m ms k in
      let (r, i) = both (is_ready now m) (in_channel c.0 c.1 m) e in
      (m, km, refl, r, HasSubscription-subscribes names c m h i)
    where
      both : (a b : Bool) → (a && b) ≡ true → (a ≡ true) × (b ≡ true)
      both a b e = ground arith

  channel_messages-ready :
      (batch : ℕ) (cs : List Channel)
      → All (HasSubscription names) cs
      → All IsReadyMessage (channel_messages batch now ms cs)
  unfolding channel_messages
  channel_messages-ready batch [] h = tt
  channel_messages-ready batch ((name, args) ∷ cs) h =
      All-append IsReadyMessage _ _
        (All-take IsReadyMessage batch _ (
          All-sort_by_time IsReadyMessage _ (
            All-of_Memᴰ IsReadyMessage (filter (λ m. is_ready now m && in_channel name args m) ms)
              (λ m k. ready_in_channel (name, args) m h.0 k))))
        (channel_messages-ready batch cs h.1)

  subscribed_messages :
      All (λ m. subscribes names m ≡ true) (filter (λ m. is_ready now m && subscribes names m) ms)
  subscribed_messages = All-of_Memᴰ _ _ λ m k.
      let e = (Memᴰ-filter (λ m. is_ready now m && subscribes names m) m ms k).1 in
      second (is_ready now m) (subscribes names m) e
    where
      second : (a b : Bool) → (a && b) ≡ true → b ≡ true
      second a b e = ground arith

  -- Whatever order the channels come in, what a poll selects is ready and was asked for.
  pub select_messages-ready :
      (shuffle : List Channel → List Channel) (batch : ℕ)
      → Keeps shuffle
      → All IsReadyMessage (select_messages shuffle names batch now ms)
  unfolding select_messages active_channels
  select_messages-ready shuffle batch keeps = All-take IsReadyMessage batch _ (
      channel_messages-ready batch _ (
        All-take (HasSubscription names) batch _
          (keeps (HasSubscription names) _ (channels-HasSubscription names _ subscribed_messages))))

  elem_ready :
      (sel : List Message) (id : ℕ)
      → All IsReadyMessage sel
      → elem id (map (λ m. m.id) sel) ≡ true
      → IsReadyId now names ms id
  elem_ready sel id h e =
      let (i, k, p) = Memᴰ-any (λ b. b == id) (map (λ m. m.id) sel) e in
      let (m, km, q) = Memᴰ-map (λ m. m.id) i sel k in
      subst (IsReadyId now names ms) (sym q ∙ (==_iff i id).0 p) (All-Memᴰ IsReadyMessage sel h km)

-- A row that a claim returned is one that it had selected.
claimed_selected :
    {now : ℕ} {ids : List ℕ} {ms old claimed : List Message}
    → Claims now ids ms old claimed
    → All (λ m. elem m.id ids ≡ true) claimed
claimed_selected Claims.done = tt
claimed_selected {now} {ids} (Claims.take {m} {m'} hit e c) = (
  rw (claim_message_id now m m' e) (first (elem m.id ids) (is_due now m) hit),
  claimed_selected c,
)
  where
    first : (a b : Bool) → (a && b) ≡ true → a ≡ true
    first a b e = ground arith
claimed_selected (Claims.pass miss c) = claimed_selected c

-- A row says how long to wait, or its id is one that `P` holds of.
abbrev pub RowOf {κ} : (ℕ → Type κ) → PolledMessage → Type κ
RowOf P p = (p.id ≡ none) ⊎ ((i : ℕ) × (p.id ≡ some i) × P i)

returned_rows-RowOf :
    (P : ℕ → Type 0) (now : ℕ) (names : Option (List String)) (ps : List Payload)
    (ms claimed : List Message)
    → All (λ m. P m.id) claimed
    → All (RowOf P) (returned_rows now names ps ms claimed)
unfolding returned_rows wait_row polled_row
returned_rows-RowOf P now names ps ms [] h = (inl refl, tt)
returned_rows-RowOf P now names ps ms (m ∷ claimed) h = go (m ∷ claimed) h
  where
    go : (xs : List Message) → All (λ m. P m.id) xs → All (RowOf P) (map (polled_row ps) xs)
    go [] h = tt
    go (x ∷ xs) h = (inr (x.id, refl, h.0), go xs h.1)

-- Every message that a poll returns was ready (due, not the nil message, and with none before it in
-- the order of its channel) and in a channel that the poll asked for; the order in which the
-- database takes the channels does not matter.
pub poll_ready :
    (shuffle : List Channel → List Channel) (now : ℕ) (names : Option (List String))
    (batch_size : ℤ) (db db' : Database) (rows : List PolledMessage)
    → Keeps shuffle
    → poll shuffle now names batch_size db ≡ ok (db', rows)
    → All (RowOf (IsReadyId now names db.messages)) rows
unfolding poll
poll_ready shuffle now names batch_size db db' rows keeps e =
    let (batch, e₁, e₂) = >>=-eq-ok (limit batch_size) _ e in
    let sel = select_messages shuffle names batch now db.messages in
    let (claimed, c, p) = claim_inversion now names (map (λ m. m.id) sel) db db' rows e₂ in
    let ready = select_messages-ready now names db.messages shuffle batch keeps in
    rw p (
      returned_rows-RowOf (IsReadyId now names db.messages) now names db.payloads db'.messages
        claimed
        (All-map claimed (λ m s. elem_ready now names db.messages sel m.id ready s)
          (claimed_selected c)))
