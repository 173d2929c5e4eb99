-- ===== src/Store/Channel/Remove.antt =====
-- What is left of a sequence when some of its ids go, and those that followed one that went come to
-- stand behind the nil message.
use mathlib.Core.Bool.{false≢true}
use sqlxmq.Prelude.{
  ℕ, ◌≡◌, ◌≢◌, refl, sym, ◌∙◌, ◌⊎◌, subst, inl, inr, Bool, true, false, List, [], ◌∷◌, filter, Memᴰ,
  All-Memᴰ, filter-Memᴰ, Pairwise, Pairwise-filter, Bool-cases,
}
use sqlxmq.Store.{uuid_nil}
use sqlxmq.Store.Channel.{Chain, last, link, IsSequence}

-- `R` is the relation before, `S` the one after, in which no two ids stand in one place.
pub record Removes (R S : ℕ → ℕ → Type 0) (keep : ℕ → Bool) : Type 0 where
  pub kept : (i j : ℕ) → R i j → keep i ≡ true → keep j ≡ true → i ≢ uuid_nil → S i j
  pub to_nil :
      (i j : ℕ)
      → R i j
      → keep j ≡ true
      → (i ≡ uuid_nil) ⊎ ((h : ℕ) × R h i × (keep i ≡ false))
      → S uuid_nil j
  pub stays : (i j : ℕ) → S i j → keep j ≡ true
  pub was_ordered : (i j : ℕ) → S i j → (h : ℕ) × R h j
  pub was_behind : (i j : ℕ) → S i j → i ≢ uuid_nil → R i j
  pub unique : (i j k : ℕ) → R i j → R i k → j ≡ k
  pub first_unique : (j k : ℕ) → S uuid_nil j → S uuid_nil k → j ≡ k
  pub no_nil : (i : ℕ) → ¬ R i uuid_nil

module _ {R S : ℕ → ℕ → Type 0} {keep : ℕ → Bool} (v : Removes R S keep) where
  not_nil : {i j : ℕ} → R i j → j ≢ uuid_nil
  not_nil {i} r e = v.no_nil i (subst (R i) e r)

  -- Behind one that goes, where another one is the first: all go.
  none_behind :
      {i : ℕ} {ids : List ℕ} (h f : ℕ)
      → Chain R i ids
      → R h i
      → keep i ≡ false
      → S uuid_nil f
      → ¬ Memᴰ f ids
      → filter keep ids ≡ []
  none_behind h f (last _) p e s n = refl
  none_behind {i} h f (link {j = j} r c) p e s n = elim (Bool-cases (keep j)) [
    | inl stays ↦
        absurd (n (Memᴰ.head (v.first_unique f j s (v.to_nil i j r stays (inr (h, p, e))))))
    | inr goes ↦ rw goes (none_behind i f c r goes s (λ m. n (Memᴰ.tail m)))
  ]

  -- Behind one that stays.
  Chain-behind :
      {i : ℕ} {ids : List ℕ} (f : ℕ)
      → Chain R i ids
      → keep i ≡ true
      → i ≢ uuid_nil
      → S uuid_nil f
      → ¬ Memᴰ f ids
      → Chain S i (filter keep ids)
  Chain-behind {i} f (last z) e nn s n = last (λ j q. z j (v.was_behind i j q nn))
  Chain-behind {i} f (link {j = j} r c) e nn s n = elim (Bool-cases (keep j)) [
    | inl stays ↦ rw stays (
        link (v.kept i j r e stays nn)
          (Chain-behind f c stays (not_nil r) s (λ m. n (Memᴰ.tail m))))
    | inr goes ↦
        rw (goes, none_behind i f c r goes s (λ m. n (Memᴰ.tail m)))
          (last (λ k q. false≢true (
            sym goes
            ∙ subst (λ x. keep x ≡ true) (v.unique i k j (v.was_behind i k q nn) r)
                (v.stays i k q))))
  ]

  -- Behind ones that all went.
  Chain-first :
      {i : ℕ} {ids : List ℕ}
      → Chain R i ids
      → (i ≡ uuid_nil) ⊎ ((h : ℕ) × R h i × (keep i ≡ false))
      → ((k : ℕ) → S uuid_nil k → Memᴰ k ids)
      → Pairwise (λ (i j : ℕ). i ≢ j) ids
      → Chain S uuid_nil (filter keep ids)
  Chain-first (last _) start cover once = last (λ k s. elim (cover k s) [ ])
  Chain-first {i} (link {j = j} {ids} r c) start cover once = elim (Bool-cases (keep j)) [
    | inl stays ↦
        let s = v.to_nil i j r stays start in
        rw stays (
          link s
            (Chain-behind j c stays (not_nil r) s (λ m. All-Memᴰ (λ k. j ≢ k) ids once.0 m refl)))
    | inr goes ↦ rw goes (Chain-first c (inr (i, r, goes)) (rest goes cover) once.1)
  ]
    where
      rest :
          {j : ℕ} {ids : List ℕ}
          → keep j ≡ false
          → ((k : ℕ) → S uuid_nil k → Memᴰ k (j ∷ ids))
          → (k : ℕ) → S uuid_nil k
          → Memᴰ k ids
      rest {j} {ids} goes cover k s = elim (cover k s) [
        | Memᴰ.head e ↦
            absurd (false≢true (sym goes ∙ subst (λ x. keep x ≡ true) e (v.stays uuid_nil k s)))
        | Memᴰ.tail m ↦ m
      ]

  pub IsSequence-filter : (ids : List ℕ) → IsSequence R ids → IsSequence S (filter keep ids)
  IsSequence-filter ids q = record {
    chain =
        Chain-first q.chain (inl refl)
          (λ k s. let (h, r) = v.was_ordered uuid_nil k s in q.covers h k r) q.once;
    covers = λ i j s.
        let (h, r) = v.was_ordered i j s in filter-Memᴰ keep ids (q.covers h j r) (v.stays i j s);
    once = Pairwise-filter _ keep ids q.once;
  }
