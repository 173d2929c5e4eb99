-- ===== src/Store/Poll/Serve.antt =====
-- What a poll returns where some message is ready.
use mathlib.Core.Bool.{false≢true}
use sqlxmq.Prelude.{
  ℕ, suc, String, pos, ◌≡◌, ◌≢◌, refl, sym, ap, ◌∙◌, subst, inl, inr, Bool, true, ◌&&◌, str_eq_iff,
  List, [], ◌∷◌, ◌++◌, map, take, Option, none, ==_iff, any, filter, All, All-map, Memᴰ,
  Memᴰ-filter, filter-Memᴰ, Memᴰ-any, arith, Bool-cases, ok, not-none-some,
}
use sqlxmq.Store.{Message, Payload, Database, in_channel}
use sqlxmq.Store.Poll.{
  PolledMessage, earlier, is_ready, is_due, is_claimed, subscribes, channels, insert_by_time,
  sort_by_time, channel_messages, active_channels, select_messages, poll, limit, polled_row,
  returned_rows,
}
use sqlxmq.Store.Poll.Claim.{Claims}
use sqlxmq.Store.Poll.Concurrent.{claim_inversion}
use sqlxmq.Store.Poll.Select.{Channel, Keeps, IsReadyId, select_messages-ready}

abbrev pub NonEmpty {ℓ} : {A : Type ℓ} → List A → Type ℓ
NonEmpty {A = A} xs = (x : A) × (rest : List A) × (xs ≡ x ∷ rest)

-- `ORDER BY RANDOM()` of some rows gives some.
abbrev pub GivesSome : (List Channel → List Channel) → Type 0
GivesSome shuffle = (c : Channel) (cs : List Channel) → NonEmpty (shuffle (c ∷ cs))

module _ {ℓ} {A : Type ℓ} where
  Memᴰ-NonEmpty : {x : A} (xs : List A) → Memᴰ x xs → NonEmpty xs
  Memᴰ-NonEmpty [] k = elim k [ ]
  Memᴰ-NonEmpty (x ∷ xs) k = (x, xs, refl)

  take-NonEmpty : (n : ℕ) (xs : List A) → NonEmpty xs → NonEmpty (take (suc n) xs)
  take-NonEmpty n xs (x, rest, e) = (x, take n rest, ap (take (suc n)) e)

  append-NonEmpty : (xs ys : List A) → NonEmpty xs → NonEmpty (xs ++ ys)
  append-NonEmpty xs ys (x, rest, e) = (x, rest ++ ys, ap (λ zs. zs ++ ys) e)

-- A channel of some of the messages.
abbrev HasMember : List Message → Channel → Type 0
HasMember ms c = (m : Message) × Memᴰ m ms × (in_channel c.0 c.1 m ≡ true)

channels-NonEmpty : (m : Message) (ms : List Message) → Memᴰ m ms → NonEmpty (channels ms)
unfolding channels
channels-NonEmpty m [] k = elim k [ ]
channels-NonEmpty m (x ∷ ms) k =
    elim (Bool-cases (any (in_channel x.channel_name x.channel_args) ms)) [
      | inl e ↦
          let (y, ky, _) = Memᴰ-any (in_channel x.channel_name x.channel_args) ms e in
          rw e (channels-NonEmpty y ms ky)
      | inr e ↦ rw e ((x.channel_name, x.channel_args), channels ms, refl)
    ]

in_channel_self : (m : Message) → in_channel m.channel_name m.channel_args m ≡ true
in_channel_self m =
    ground
      (arith, str_eq_iff m.channel_name m.channel_name, str_eq_iff m.channel_args m.channel_args)

channels-HasMember : (ms : List Message) → All (HasMember ms) (channels ms)
unfolding channels
channels-HasMember [] = tt
channels-HasMember (x ∷ ms) =
    let rest = All-map (channels ms) (λ c (m, k, e). (m, Memᴰ.tail k, e)) (channels-HasMember ms) in
    elim (Bool-cases (any (in_channel x.channel_name x.channel_args) ms)) [
      | inl e ↦ rw e rest
      | inr e ↦ rw e ((x, Memᴰ.head refl, in_channel_self x), rest)
    ]

insert_by_time-NonEmpty : (m : Message) (ms : List Message) → NonEmpty (insert_by_time m ms)
unfolding insert_by_time
insert_by_time-NonEmpty m [] = (m, [], refl)
insert_by_time-NonEmpty m (n ∷ ns) = elim (Bool-cases (earlier n m)) [
  | inl e ↦ rw e (n, insert_by_time m ns, refl)
  | inr e ↦ rw e (m, n ∷ ns, refl)
]

sort_by_time-NonEmpty : (ms : List Message) → NonEmpty ms → NonEmpty (sort_by_time ms)
unfolding sort_by_time
sort_by_time-NonEmpty ms (m, rest, e) = rw e (insert_by_time-NonEmpty m (sort_by_time rest))

both : (a b : Bool) → (a && b) ≡ true → (a ≡ true) × (b ≡ true)
both a b e = ground arith

and_true : (a b : Bool) → a ≡ true → b ≡ true → (a && b) ≡ true
and_true a b p q = ground arith

module _ (shuffle : List Channel → List Channel) (now : ℕ) (names : Option (List String)) (n : ℕ)
    (ms : List Message) where
  abbrev ready_messages : List Message
  ready_messages = filter (λ m. is_ready now m && subscribes names m) ms

  channel_messages-NonEmpty :
      (c : Channel) (cs : List Channel)
      → HasMember ready_messages c
      → NonEmpty (channel_messages (suc n) now ms (c ∷ cs))
  unfolding channel_messages
  channel_messages-NonEmpty (name, args) cs (m, k, i) =
      let (km, e) = Memᴰ-filter (λ m. is_ready now m && subscribes names m) m ms k in
      let (r, _) = both (is_ready now m) (subscribes names m) e in
      let test = λ (m : Message). is_ready now m && in_channel name args m in
      append-NonEmpty (take (suc n) (sort_by_time (filter test ms))) _ (
        take-NonEmpty n _ (
          sort_by_time-NonEmpty _ (
            Memᴰ-NonEmpty _
              (filter-Memᴰ test ms km (and_true (is_ready now m) (in_channel name args m) r i)))))

  select_messages-NonEmpty :
      (m : Message)
      → Keeps shuffle
      → GivesSome shuffle
      → Memᴰ m ms
      → is_ready now m ≡ true
      → subscribes names m ≡ true
      → NonEmpty (select_messages shuffle names (suc n) now ms)
  unfolding select_messages active_channels
  select_messages-NonEmpty m keeps some_given k r s =
      let km =
        filter-Memᴰ (λ m. is_ready now m && subscribes names m) ms k
          (and_true (is_ready now m) (subscribes names m) r s) in
      let (c, cs, e) = channels-NonEmpty m ready_messages km in
      let (d, ds, f) = some_given c cs in
      let q : shuffle (channels ready_messages) ≡ d ∷ ds = ap shuffle e ∙ f in
      let members =
        subst (λ xs. All (HasMember ready_messages) xs) q
          (keeps (HasMember ready_messages) _ (channels-HasMember ready_messages)) in
      take-NonEmpty n _ (rw q (channel_messages-NonEmpty d (take n ds) members.0))

-- A message that a claim takes is returned.
claimed-NonEmpty :
    {now : ℕ} {ids : List ℕ} {ms old claimed : List Message} (m : Message)
    → Claims now ids ms old claimed
    → Memᴰ m ms
    → is_claimed now ids m ≡ true
    → NonEmpty claimed
claimed-NonEmpty m Claims.done k h = elim k [ ]
claimed-NonEmpty m (Claims.take {m' = m'} {claimed = claimed} hit e c) k h = (m', claimed, refl)
claimed-NonEmpty {now} {ids} m (Claims.pass miss c) (Memᴰ.head e) h =
    absurd (false≢true (sym miss ∙ ap (is_claimed now ids) (sym e) ∙ h))
claimed-NonEmpty m (Claims.pass miss c) (Memᴰ.tail k) h = claimed-NonEmpty m c k h

selected_claimed :
    (now : ℕ) (sel : List Message) (x : Message) (rest : List Message) (y : Message)
    → sel ≡ x ∷ rest
    → y.id ≡ x.id
    → is_ready now y ≡ true
    → is_claimed now (map (λ m. m.id) sel) y ≡ true
selected_claimed now sel x rest y e same r =
    let h = (==_iff x.id y.id).1 (sym same) in
    let due : is_due now y ≡ true = ground arith in rw (e, h) due

polled_rows-id :
    (now : ℕ) (names : Option (List String)) (ps : List Payload) (ms claimed : List Message)
    → NonEmpty claimed
    → NonEmpty (returned_rows now names ps ms claimed)
      × All (λ (p : PolledMessage). p.id ≢ none) (returned_rows now names ps ms claimed)
unfolding returned_rows polled_row
polled_rows-id now names ps ms claimed (m, rest, e) =
    rw e ((polled_row ps m, map (polled_row ps) rest, refl), ids (m ∷ rest))
  where
    ids : (xs : List Message) → All (λ (p : PolledMessage). p.id ≢ none) (map (polled_row ps) xs)
    ids [] = tt
    ids (x ∷ xs) = ((λ e. not-none-some (sym e)), ids xs)

-- Where a message is ready and in a channel that the poll asks for, a poll for at least one message
-- returns at least one, and no row without a message: nothing that is ready keeps a poll idle,
-- in whatever order the channels come.
pub poll_serves :
    (shuffle : List Channel → List Channel) (now : ℕ) (names : Option (List String)) (n : ℕ)
    (db db' : Database) (rows : List PolledMessage) (m : Message)
    → Keeps shuffle
    → GivesSome shuffle
    → Memᴰ m db.messages
    → is_ready now m ≡ true
    → subscribes names m ≡ true
    → poll shuffle now names (pos (suc n)) db ≡ ok (db', rows)
    → NonEmpty rows × All (λ (p : PolledMessage). p.id ≢ none) rows
unfolding poll limit
poll_serves shuffle now names n db db' rows m keeps some_given k r s e =
    let sel = select_messages shuffle names (suc n) now db.messages in
    let (claimed, c, p) = claim_inversion now names (map (λ m. m.id) sel) db db' rows e in
    let (x, rest, q) =
      select_messages-NonEmpty shuffle now names n db.messages m keeps some_given k r s in
    let ready = select_messages-ready now names db.messages shuffle (suc n) keeps in
    let (y, ky, same, ry, _) =
      (subst (λ xs. All (λ (z : Message). IsReadyId now names db.messages z.id) xs) q ready).0 in
    let hit : is_claimed now (map (λ m. m.id) sel) y ≡ true =
      selected_claimed now sel x rest y q same ry in
    rw p (polled_rows-id now names db.payloads db'.messages claimed (claimed-NonEmpty y c ky hit))
