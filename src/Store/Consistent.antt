-- ===== src/Store/Consistent.antt =====
-- What the constraints of mq_msgs, and the way in which messages are added to it, make true of it.
pub mod Clear
pub mod Order
pub mod Delete
pub mod Insert
pub mod Remove
pub mod Update
use sqlxmq.Prelude.{
  ℕ, String, ◌≡◌, ◌≢◌, refl, sym, ap, ◌∙◌, Bool, true, false, ◌&&◌, ◌||◌, not, List, [], ◌∷◌,
  Option, none, some, ◌==◌, ==_iff, str_eq, str_eq_iff, sql_eq, any, All, All-Memᴰ, All-of_Memᴰ,
  Memᴰ, Memᴰ-any, any_of_Memᴰ, any-false, Pairwise, arith, inl, inr, Bool-cases, Option-cases,
  if◌then◌else◌,
}
use sqlxmq.Store.{Message, uuid_nil, in_channel, conflicts, has_conflict, is_linked, has_dangling}
use sqlxmq.Store.Poll.Claim.{Distinct}

-- Messages of one channel.
abbrev pub SameChannel : Message → Message → Type 0
SameChannel a b = (a.channel_name ≡ b.channel_name) × (a.channel_args ≡ b.channel_args)

pub record IsConsistent (ms : List Message) : Type 0 where
  -- The primary key.
  pub distinct : Distinct ms
  -- The unique index: no two messages of a channel follow the same one.
  pub unique :
      (a b : Message)
      → Memᴰ a ms
      → Memᴰ b ms
      → a.id ≢ b.id
      → SameChannel a b
      → (i : ℕ) → a.after_message_id ≡ some i
      → ¬ (b.after_message_id ≡ some i)
  -- A message follows an ordered message of its own channel, or the nil message.
  pub chained :
      (a b : Message)
      → Memᴰ a ms
      → Memᴰ b ms
      → b.after_message_id ≡ some a.id
      → a.id ≢ uuid_nil
      → SameChannel a b × (a.after_message_id ≢ none)
  -- The foreign key.
  pub linked :
      (a : Message) (i : ℕ)
      → Memᴰ a ms
      → a.after_message_id ≡ some i
      → (b : Message) × Memᴰ b ms × (b.id ≡ i)
  -- The nil message is there, and follows none.
  pub has_nil : (b : Message) × Memᴰ b ms × (b.id ≡ uuid_nil) × (b.after_message_id ≡ none)

pub in_channel→SameChannel :
    (a b : Message) → in_channel a.channel_name a.channel_args b ≡ true → SameChannel a b
in_channel→SameChannel a b h =
    ground
      (arith, str_eq_iff b.channel_name a.channel_name, str_eq_iff b.channel_args a.channel_args)

pub SameChannel→in_channel :
    (a b : Message) → SameChannel a b → in_channel a.channel_name a.channel_args b ≡ true
SameChannel→in_channel a b h =
    ground
      (arith, str_eq_iff b.channel_name a.channel_name, str_eq_iff b.channel_args a.channel_args)

-- What the test of the unique index finds.
pub conflicts→ :
    (a b : Message)
    → conflicts a b ≡ true
    → SameChannel a b × (i : ℕ) × (a.after_message_id ≡ some i) × (b.after_message_id ≡ some i)
conflicts→ a b h =
    ground
      (arith, str_eq_iff b.channel_name a.channel_name, str_eq_iff b.channel_args a.channel_args)

pub →conflicts :
    (a b : Message) (i : ℕ)
    → SameChannel a b
    → a.after_message_id ≡ some i
    → b.after_message_id ≡ some i
    → conflicts a b ≡ true
→conflicts a b i s p q = ground (arith, SameChannel→in_channel a b s)

-- A test of the constraints finds nothing in a consistent table.
pub has_conflict-false :
    (ms : List Message)
    → Distinct ms
    → ((a b : Message) → Memᴰ a ms → Memᴰ b ms → a.id ≢ b.id → conflicts a b ≡ false)
    → has_conflict ms ≡ false
has_conflict-false [] d u = refl
has_conflict-false (m ∷ ms) d u =
    let first =
      any-false (conflicts m) ms
        (λ x k. u m x (Memᴰ.head refl) (Memᴰ.tail k) (λ e. All-Memᴰ _ ms d.0 k (sym e))) in
    rw first (has_conflict-false ms d.1 (λ a b ka kb. u a b (Memᴰ.tail ka) (Memᴰ.tail kb)))

module _ {ms : List Message} (c : IsConsistent ms) where
  pub has_conflict-IsConsistent : has_conflict ms ≡ false
  has_conflict-IsConsistent = has_conflict-false ms c.distinct λ a b ka kb ne.
      elim (Bool-cases (conflicts a b)) [
        | inl hit ↦ let (s, i, p, q) = conflicts→ a b hit in absurd (c.unique a b ka kb ne s i p q)
        | inr miss ↦ miss
      ]

  is_linked-IsConsistent : (a : Message) → Memᴰ a ms → is_linked ms a ≡ true
  is_linked-IsConsistent a k = elim (Option-cases a.after_message_id) [
    | inl e ↦ rw e
    | inr (i, e) ↦
        let (b, kb, p) = c.linked a i k e in
        rw e (any_of_Memᴰ (λ n. n.id == i) ms kb ((==_iff b.id i).1 p))
  ]

  pub has_dangling-IsConsistent : has_dangling ms ≡ false
  has_dangling-IsConsistent = any-false _ ms λ a k. rw (is_linked-IsConsistent a k)

-- An id has one message.
pub Distinct-eq :
    (ms : List Message) (a b : Message) → Distinct ms → Memᴰ a ms → Memᴰ b ms → a.id ≡ b.id → a ≡ b
Distinct-eq [] a b d ka kb e = elim ka [ ]
Distinct-eq (m ∷ ms) a b d (Memᴰ.head p) (Memᴰ.head q) e = p ∙ sym q
Distinct-eq (m ∷ ms) a b d (Memᴰ.head p) (Memᴰ.tail kb) e =
    absurd (All-Memᴰ _ ms d.0 kb (sym e ∙ ap (λ (x : Message). x.id) p))
Distinct-eq (m ∷ ms) a b d (Memᴰ.tail ka) (Memᴰ.head q) e =
    absurd (All-Memᴰ _ ms d.0 ka (e ∙ ap (λ (x : Message). x.id) q))
Distinct-eq (m ∷ ms) a b d (Memᴰ.tail ka) (Memᴰ.tail kb) e = Distinct-eq ms a b d.1 ka kb e
