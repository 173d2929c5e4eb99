-- ===== src/Store/Channel/Append.antt =====
-- One more id at the end of a sequence, and relations that agree.
use sqlxmq.Prelude.{
  ℕ, ◌≡◌, ◌≢◌, refl, sym, ◌⊎◌, subst, inl, inr, List, [], ◌∷◌, ◌++◌, Memᴰ, Memᴰ-append_left,
  Pairwise, All-append,
}
use sqlxmq.Store.{uuid_nil}
use sqlxmq.Store.Channel.{Chain, last, link, IsSequence, last_or}

Memᴰ-append_last : (x : ℕ) (xs : List ℕ) → Memᴰ x (xs ++ x ∷ [])
Memᴰ-append_last x [] = Memᴰ.head refl
Memᴰ-append_last x (y ∷ xs) = Memᴰ.tail (Memᴰ-append_last x xs)

Pairwise-append_last :
    (x : ℕ) (xs : List ℕ)
    → ¬ Memᴰ x xs
    → Pairwise (λ (i j : ℕ). i ≢ j) xs
    → Pairwise (λ (i j : ℕ). i ≢ j) (xs ++ x ∷ [])
Pairwise-append_last x [] n h = (tt, tt)
Pairwise-append_last x (y ∷ xs) n h = (
  All-append (λ j. y ≢ j) xs (x ∷ []) h.0 ((λ e. n (Memᴰ.head (sym e))), tt),
  Pairwise-append_last x xs (λ m. n (Memᴰ.tail m)) h.1,
)

module _ {R S : ℕ → ℕ → Type 0} where
  -- Relations that agree have the same sequences.
  Chain-agree :
      {i : ℕ} {ids : List ℕ}
      → ((i j : ℕ) → R i j → S i j)
      → ((i j : ℕ) → S i j → R i j)
      → Chain R i ids
      → Chain S i ids
  Chain-agree {i} f g (last none_next) = last (λ j s. none_next j (g i j s))
  Chain-agree {i} f g (link {j = j} r c) = link (f i j r) (Chain-agree f g c)

  pub IsSequence-agree :
      {ids : List ℕ}
      → ((i j : ℕ) → R i j → S i j)
      → ((i j : ℕ) → S i j → R i j)
      → IsSequence R ids
      → IsSequence S ids
  IsSequence-agree f g q = record {
    chain = Chain-agree f g q.chain;
    covers = λ i j s. q.covers i j (g i j s);
    once = q.once;
  }

  Chain-append :
      {i : ℕ} {ids : List ℕ} (new : ℕ)
      → ((i j : ℕ) → R i j → S i j)
      → S (last_or i ids) new
      → ((j : ℕ) → ¬ S new j)
      → Chain R i ids
      → Chain S i (ids ++ new ∷ [])
  Chain-append new f s z (last _) = link s (last z)
  Chain-append {i} new f s z (link {j = j} r c) = link (f i j r) (Chain-append new f s z c)

  -- One that follows the last one, and that none follows, stands at the end.
  pub IsSequence-append :
      (ids : List ℕ) (new : ℕ)
      → ((i j : ℕ) → R i j → S i j)
      → ((i j : ℕ) → S i j → R i j ⊎ (j ≡ new))
      → S (last_or uuid_nil ids) new
      → ((j : ℕ) → ¬ S new j)
      → ¬ Memᴰ new ids
      → IsSequence R ids
      → IsSequence S (ids ++ new ∷ [])
  IsSequence-append ids new f g s z fresh q = record {
    chain = Chain-append new f s z q.chain;
    covers = λ i j h. elim (g i j h) [
      | inl r ↦ Memᴰ-append_left ids (new ∷ []) (q.covers i j r)
      | inr e ↦ subst (λ k. Memᴰ k (ids ++ new ∷ [])) (sym e) (Memᴰ-append_last new ids)
    ];
    once = Pairwise-append_last new ids fresh q.once;
  }

module _ {R : ℕ → ℕ → Type 0} where
  -- One that none follows is the last one.
  pub last_or-eq :
      {i : ℕ} {ids : List ℕ} (j : ℕ)
      → Chain R i ids
      → Memᴰ j ids
      → ((k : ℕ) → ¬ R j k)
      → j ≡ last_or i ids
  last_or-eq j (last _) m z = elim m [ ]
  last_or-eq j (link r (last _)) (Memᴰ.head e) z = e
  last_or-eq j (link r (link {j = k} s c)) (Memᴰ.head e) z =
      absurd (z k (subst (λ x. R x k) (sym e) s))
  last_or-eq j (link r c) (Memᴰ.tail m) z = last_or-eq j c m z

  -- The last one follows another, unless there is none.
  pub last_or-link :
      {i : ℕ} (k : ℕ) (ids : List ℕ)
      → Chain R i (k ∷ ids)
      → ((h : ℕ) × R h (last_or i (k ∷ ids))) × ((j : ℕ) → ¬ R (last_or i (k ∷ ids)) j)
  last_or-link {i} k [] (link r (last z)) = ((i, r), z)
  last_or-link k (j ∷ ids) (link r c) = last_or-link j ids c

  -- Who stands in the sequence follows one.
  pub Chain-member : {i : ℕ} {ids : List ℕ} (j : ℕ) → Chain R i ids → Memᴰ j ids → (h : ℕ) × R h j
  Chain-member j (last _) m = elim m [ ]
  Chain-member {i} j (link r c) (Memᴰ.head e) = (i, subst (R i) (sym e) r)
  Chain-member j (link r c) (Memᴰ.tail m) = Chain-member j c m
