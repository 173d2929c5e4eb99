-- ===== src/Store/Consistent/Update.antt =====
-- The UPDATEs, which leave the ids, the channels and the order of the messages alone.
use sqlxmq.Prelude.{
  ℕ, ℤ, ◌+◌, ◌≡◌, ◌≢◌, refl, sym, ap, ◌∙◌, subst, inl, inr, Bool, List, [], ◌∷◌, Option, none, some,
  Memᴰ, arith, Bool-cases, Fallible, ok, >>=-eq-ok, ok_injective, elem, ◌&&◌, ◌==◌, String,
}
use sqlxmq.Store.{Message, Database, uuid_nil, update_where}
use sqlxmq.Store.Schedule.{
  commit, commit_message, is_uncommitted, keep_alive, keep_message_alive, checkpoint,
  checkpoint_message, checkpoint_payload,
}
use sqlxmq.Store.Poll.{claim_message}
use sqlxmq.Store.Poll.Claim.{Claims, Distinct, Without}
use sqlxmq.Store.Consistent.{SameChannel, IsConsistent}

-- A message and what an update made of it.
pub record Links (b b' : Message) : Type 0 where
  pub same_id : b'.id ≡ b.id
  pub same_name : b'.channel_name ≡ b.channel_name
  pub same_args : b'.channel_args ≡ b.channel_args
  pub same_after : b'.after_message_id ≡ b.after_message_id

pub data Updated : List Message → List Message → Type 0 where
  none_left : Updated [] []
  one :
      {m m' : Message} {ms ms' : List Message}
      → Links m m'
      → Updated ms ms'
      → Updated (m ∷ ms) (m' ∷ ms')

pub Updated-old :
    {ms ms' : List Message} (b' : Message)
    → Updated ms ms'
    → Memᴰ b' ms'
    → (b : Message) × Memᴰ b ms × Links b b'
Updated-old b' none_left k = elim k [ ]
Updated-old b' (one {m} {m'} l u) (Memᴰ.head e) = (m, Memᴰ.head refl, subst (Links m) (sym e) l)
Updated-old b' (one l u) (Memᴰ.tail k) = let (b, kb, v) = Updated-old b' u k in (b, Memᴰ.tail kb, v)

pub Updated-new :
    {ms ms' : List Message} (b : Message)
    → Updated ms ms'
    → Memᴰ b ms
    → (b' : Message) × Memᴰ b' ms' × Links b b'
Updated-new b none_left k = elim k [ ]
Updated-new b (one {m} {m'} l u) (Memᴰ.head e) =
    (m', Memᴰ.head refl, subst (λ x. Links x m') (sym e) l)
Updated-new b (one l u) (Memᴰ.tail k) = let (b', kb, v) = Updated-new b u k in (b', Memᴰ.tail kb, v)

Updated-Without : {ms ms' : List Message} (id : ℕ) → Updated ms ms' → Without id ms → Without id ms'
Updated-Without id none_left w = tt
Updated-Without id (one l u) w = ((λ p. w.0 (sym l.same_id ∙ p)), Updated-Without id u w.1)

Updated-Distinct : {ms ms' : List Message} → Updated ms ms' → Distinct ms → Distinct ms'
Updated-Distinct none_left d = tt
Updated-Distinct (one {m} {m'} {ms'} l u) d = (
  subst (λ i. Without i ms') (sym l.same_id) (Updated-Without m.id u d.0),
  Updated-Distinct u d.1,
)

module _ {ms ms' : List Message} (u : Updated ms ms') (c : IsConsistent ms) where
  unique_updated :
      (a' b' : Message)
      → Memᴰ a' ms'
      → Memᴰ b' ms'
      → a'.id ≢ b'.id
      → SameChannel a' b'
      → (i : ℕ) → a'.after_message_id ≡ some i
      → ¬ (b'.after_message_id ≡ some i)
  unique_updated a' b' ka' kb' ne (sn, sa) i p q =
      let (a, ka, va) = Updated-old a' u ka' in
      let (b, kb, vb) = Updated-old b' u kb' in
      c.unique a b ka kb (λ z. ne (va.same_id ∙ z ∙ sym vb.same_id))
        (sym va.same_name ∙ sn ∙ vb.same_name, sym va.same_args ∙ sa ∙ vb.same_args) i
        (sym va.same_after ∙ p) (sym vb.same_after ∙ q)

  chained_updated :
      (a' b' : Message)
      → Memᴰ a' ms'
      → Memᴰ b' ms'
      → b'.after_message_id ≡ some a'.id
      → a'.id ≢ uuid_nil
      → SameChannel a' b' × (a'.after_message_id ≢ none)
  chained_updated a' b' ka' kb' e nn =
      let (a, ka, va) = Updated-old a' u ka' in
      let (b, kb, vb) = Updated-old b' u kb' in
      let ((sn, sa), o) =
        c.chained a b ka kb (sym vb.same_after ∙ e ∙ ap some va.same_id)
          (λ z. nn (va.same_id ∙ z)) in
      (
        (va.same_name ∙ sn ∙ sym vb.same_name, va.same_args ∙ sa ∙ sym vb.same_args),
        (λ z. o (sym va.same_after ∙ z)),
      )

  linked_updated :
      (a' : Message) (i : ℕ)
      → Memᴰ a' ms'
      → a'.after_message_id ≡ some i
      → (b' : Message) × Memᴰ b' ms' × (b'.id ≡ i)
  linked_updated a' i ka' e =
      let (a, ka, va) = Updated-old a' u ka' in
      let (b, kb, p) = c.linked a i ka (sym va.same_after ∙ e) in
      let (b', kb', vb) = Updated-new b u kb in (b', kb', vb.same_id ∙ p)

  has_nil_updated : (b' : Message) × Memᴰ b' ms' × (b'.id ≡ uuid_nil) × (b'.after_message_id ≡ none)
  has_nil_updated =
      let (n, kn, p, q) = c.has_nil in
      let (n', kn', v) = Updated-new n u kn in (n', kn', v.same_id ∙ p, v.same_after ∙ q)

  pub Updated-IsConsistent : IsConsistent ms'
  Updated-IsConsistent = record {
    distinct = Updated-Distinct u c.distinct;
    unique = unique_updated;
    chained = chained_updated;
    linked = linked_updated;
    has_nil = has_nil_updated;
  }

abbrev unchanged : (m : Message) → Links m m
unchanged m = record { same_id = refl; same_name = refl; same_args = refl; same_after = refl }

pub update_where-Updated :
    (test : Message → Bool) (set : Message → Fallible Message) (ms ms' : List Message)
    → ((m m' : Message) → set m ≡ ok m' → Links m m')
    → update_where test set ms ≡ ok ms'
    → Updated ms ms'
unfolding update_where
update_where-Updated test set [] ms' l e = subst (Updated []) (ok_injective e) none_left
update_where-Updated test set (m ∷ ms) ms' l e =
    let (rest, e₁, e₂) = >>=-eq-ok (update_where test set ms) _ e in
    let u = update_where-Updated test set ms rest l e₁ in
    elim (Bool-cases (test m)) [
      | inl hit ↦
          let (m', e₃, e₄) = >>=-eq-ok (set m) _ (rw hit at e₂) in
          subst (Updated (m ∷ ms)) (ok_injective e₄) (one (l m m' e₃) u)
      | inr miss ↦ subst (Updated (m ∷ ms)) (ok_injective (rw miss at e₂)) (one (unchanged m) u)
    ]

commit_message-Links : (m m' : Message) → commit_message m ≡ ok m' → Links m m'
unfolding commit_message
commit_message-Links m m' e = ground arith

keep_message_alive-Links : (target : ℕ) (m : Message) → Links m (keep_message_alive target m)
unfolding keep_message_alive
keep_message_alive-Links target m = ground arith

checkpoint_message-Links :
    (target : ℕ) (extra : Option ℤ) (m m' : Message)
    → checkpoint_message target extra m ≡ ok m'
    → Links m m'
unfolding checkpoint_message
checkpoint_message-Links target extra m m' e = ground arith

claim_message-Links : (now : ℕ) (m m' : Message) → claim_message now m ≡ ok m' → Links m m'
unfolding claim_message
claim_message-Links now m m' e = ground arith

pub Claims-Updated :
    {now : ℕ} {ids : List ℕ} {ms old claimed : List Message}
    → Claims now ids ms old claimed
    → Updated ms old
Claims-Updated Claims.done = none_left
Claims-Updated {now} (Claims.take {m} {m'} hit e c) =
    one (claim_message-Links now m m' e) (Claims-Updated c)
Claims-Updated (Claims.pass {m} miss c) = one (unchanged m) (Claims-Updated c)

pub commit-Updated :
    (ids : List ℕ) (db db' : Database)
    → commit ids db ≡ ok db'
    → Updated db.messages db'.messages × (db'.payloads ≡ db.payloads)
unfolding commit
commit-Updated ids db db' e =
    let (ms, e₁, e₂) =
      >>=-eq-ok (update_where (λ m. elem m.id ids && is_uncommitted m) commit_message db.messages) _
        e in
    subst (λ (d : Database). Updated db.messages d.messages × (d.payloads ≡ db.payloads))
      (ok_injective e₂) (update_where-Updated _ _ db.messages ms commit_message-Links e₁, refl)

keep_alive-Links :
    (target : ℕ) (m m' : Message) → ok (keep_message_alive target m) ≡ ok m' → Links m m'
keep_alive-Links target m m' e =
    subst (Links m) (ok_injective e) (keep_message_alive-Links target m)

pub keep_alive-Updated :
    (now : ℕ) (ids : List ℕ) (duration : ℕ) (db db' : Database)
    → keep_alive now ids duration db ≡ ok db'
    → Updated db.messages db'.messages × (db'.payloads ≡ db.payloads)
unfolding keep_alive
keep_alive-Updated now ids duration db db' e =
    let (ms, e₁, e₂) =
      >>=-eq-ok
        (update_where (λ m. elem m.id ids) (λ m. ok (keep_message_alive (now + duration) m))
          db.messages)
        _ e in
    subst (λ (d : Database). Updated db.messages d.messages × (d.payloads ≡ db.payloads))
      (ok_injective e₂)
      (update_where-Updated _ _ db.messages ms (keep_alive-Links (now + duration)) e₁, refl)

pub checkpoint-Updated :
    (to_jsonb : String → Option String) (now id duration : ℕ) (json : Option String)
    (bytes : Option (List ℕ)) (extra : Option ℤ) (db db' : Database)
    → checkpoint to_jsonb now id duration json bytes extra db ≡ ok db'
    → Updated db.messages db'.messages
      × (checkpoint_payload to_jsonb id json bytes db.payloads ≡ ok db'.payloads)
unfolding checkpoint
checkpoint-Updated to_jsonb now id duration json bytes extra db db' e =
    let (ms, e₁, e₂) =
      >>=-eq-ok
        (update_where (λ m. m.id == id) (checkpoint_message (now + duration) extra) db.messages) _
        e in
    let (ps, e₃, e₄) = >>=-eq-ok (checkpoint_payload to_jsonb id json bytes db.payloads) _ e₂ in
    subst
      (λ (d : Database).
        Updated db.messages d.messages
        × (checkpoint_payload to_jsonb id json bytes db.payloads ≡ ok d.payloads))
      (ok_injective e₄)
      (
        update_where-Updated _ _ db.messages ms (checkpoint_message-Links (now + duration) extra)
            e₁,
        e₃,
      )
