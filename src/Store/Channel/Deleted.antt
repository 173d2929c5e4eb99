-- ===== src/Store/Channel/Deleted.antt =====
-- The order of a channel after a deletion.
use mathlib.Core.Bool.{false≢true}
use sqlxmq.Prelude.{
  ℕ, String, ◌≡◌, ◌≢◌, refl, sym, ap, ◌∙◌, ◌⊎◌, subst, inl, inr, Bool, true, false, not, List,
  Option, some, filter, Memᴰ, some_injective, arith,
}
use sqlxmq.Store.{Message, uuid_nil}
use sqlxmq.Store.Remove.{relink}
use sqlxmq.Store.Consistent.{IsConsistent}
use sqlxmq.Store.Channel.{Follows, IsQueue}
use sqlxmq.Store.Channel.Left.{relink_cases, IsLeft, left_member, Follows-origin}
use sqlxmq.Store.Channel.Remove.{Removes, IsSequence-filter}
use sqlxmq.Store.Channel.Table.{Follows-unique, Follows-nil, Follows-ordered}

module _ (gone : Message → Bool) (ms ms' : List Message) (name args : String)
    (keep : ℕ → Bool) where
  -- Which ids of the channel stay.
  abbrev pub Tells : Type 0
  Tells = (i j : ℕ) (p : Follows ms name args i j) → keep j ≡ not (gone p.message)

  module _ (c : IsConsistent ms) (c' : IsConsistent ms') (e : IsLeft gone ms ms') (t : Tells) where
    keeps : (i j : ℕ) (p : Follows ms name args i j) → keep j ≡ true → gone p.message ≡ false
    keeps i j p k = let h = t i j p in ground arith

    goes : (i j : ℕ) (p : Follows ms name args i j) → keep j ≡ false → gone p.message ≡ true
    goes i j p k = let h = t i j p in ground arith

    -- A message that is kept, as it stands now.
    left :
        (i j : ℕ) (a : Option ℕ) (k : ℕ) (p : Follows ms name args i j)
        → gone p.message ≡ false
        → relink gone ms p.message ≡ record p.message { after_message_id = a }
        → a ≡ some k
        → Follows ms' name args k j
    left i j a k p g r q = record {
      message = record p.message { after_message_id = a };
      member = subst (λ m. Memᴰ m ms') r (left_member gone ms ms' e p.message p.member g);
      channel = p.channel;
      after = q;
      same = p.same;
    }

    left_behind :
        (i j : ℕ)
        → Follows ms name args i j
        → keep i ≡ true
        → keep j ≡ true
        → i ≢ uuid_nil
        → Follows ms' name args i j
    left_behind i j p ki kj nn = elim (relink_cases gone ms p.message) [
      | inl (d, kd, gd, after, _) ↦
          let same = some_injective (sym after ∙ p.after) in
          let (h, q, z) =
            Follows-ordered c d j kd (λ y. nn (sym same ∙ y))
              (subst (λ x. Follows ms name args x j) (sym same) p) in
          absurd (
            false≢true (
              sym (
                subst (λ m. gone m ≡ false) z
                  (keeps h d.id q (subst (λ x. keep x ≡ true) (sym same) ki)))
              ∙ gd))
      | inr (_, r) ↦ left i j p.message.after_message_id i p (keeps i j p kj) r p.after
    ]

    left_first :
        (i j : ℕ)
        → Follows ms name args i j
        → keep j ≡ true
        → (i ≡ uuid_nil) ⊎ ((h : ℕ) × Follows ms name args h i × (keep i ≡ false))
        → Follows ms' name args uuid_nil j
    left_first i j p kj start = elim (relink_cases gone ms p.message) [
      | inl (d, kd, gd, after, r) ↦ left i j (some uuid_nil) uuid_nil p (keeps i j p kj) r refl
      | inr (miss, r) ↦
          left i j p.message.after_message_id uuid_nil p (keeps i j p kj) r (elim start [
            | inl z ↦ p.after ∙ ap some z
            | inr (h, q, k) ↦
                absurd (miss q.message q.member (goes h i q k) (p.after ∙ ap some (sym q.same)))
          ])
    ]

    pub Follows-Removes : Removes (Follows ms name args) (Follows ms' name args) keep
    Follows-Removes = record {
      kept = left_behind;
      to_nil = left_first;
      stays = λ i j s. let (h, p, g, _) = Follows-origin gone ms ms' e i j s in t h j p ∙ ap not g;
      was_ordered = λ i j s. let (h, p, _, _) = Follows-origin gone ms ms' e i j s in (h, p);
      was_behind = λ i j s nn.
          let (h, p, _, place) = Follows-origin gone ms ms' e i j s in
          elim place [
            | inl (z, _, _, _, _) ↦ absurd (nn z)
            | inr same ↦ subst (λ x. Follows ms name args x j) same p
          ];
      unique = Follows-unique c;
      first_unique = Follows-unique c' uuid_nil;
      no_nil = Follows-nil c;
    }

    pub deleted-IsQueue :
        (ids : List ℕ) → IsQueue ms name args ids → IsQueue ms' name args (filter keep ids)
    deleted-IsQueue = IsSequence-filter Follows-Removes
