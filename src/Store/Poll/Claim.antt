-- ===== src/Store/Poll/Claim.antt =====
-- Two polls at once: what the UPDATE of one does to that of another, whatever each has selected.
use sqlxmq.Prelude.{
  ℕ, ◌+◌, ◌<◌, ◌≡◌, ◌≢◌, sym, ◌∙◌, inl, inr, true, false, List, [], ◌∷◌, arith, All, Pairwise,
  Bool-cases, ok, >>=-eq-ok, ok_injective, subst,
}
use sqlxmq.Store.{Message}
use sqlxmq.Store.Poll.{claim_message, claim_messages, is_claimed, is_due}

abbrev pub Distinct : List Message → Type 0
Distinct = Pairwise (λ m n. n.id ≢ m.id)

abbrev pub Without : ℕ → List Message → Type 0
Without id = All (λ n. n.id ≢ id)

-- What a claim of a table gives, row by row: a row is claimed and returned, or stays.
pub data Claims (now : ℕ) (ids : List ℕ) : List Message → List Message → List Message → Type 0 where
  done : Claims now ids [] [] []
  take :
      {m m' : Message} {ms old claimed : List Message}
      → is_claimed now ids m ≡ true
      → claim_message now m ≡ ok m'
      → Claims now ids ms old claimed
      → Claims now ids (m ∷ ms) (m' ∷ old) (m' ∷ claimed)
  pass :
      {m : Message} {ms old claimed : List Message}
      → is_claimed now ids m ≡ false
      → Claims now ids ms old claimed
      → Claims now ids (m ∷ ms) (m ∷ old) claimed

pub claim_messages-Claims :
    (now : ℕ) (ids : List ℕ) (ms : List Message) (r : List Message × List Message)
    → claim_messages now ids ms ≡ ok r
    → Claims now ids ms r.0 r.1
unfolding claim_messages
claim_messages-Claims now ids [] r e =
    subst (λ (p : List Message × List Message). Claims now ids [] p.0 p.1) (ok_injective e) done
claim_messages-Claims now ids (m ∷ ms) r e =
    let (rest, e₁, e₂) = >>=-eq-ok (claim_messages now ids ms) _ e in
    let ih = claim_messages-Claims now ids ms rest e₁ in
    elim (Bool-cases (is_claimed now ids m)) [
      | inl hit ↦
          let (m', e₃, e₄) = >>=-eq-ok (claim_message now m) _ (rw hit at e₂) in
          subst (λ (p : List Message × List Message). Claims now ids (m ∷ ms) p.0 p.1)
            (ok_injective e₄) (take hit e₃ ih)
      | inr miss ↦
          subst (λ (p : List Message × List Message). Claims now ids (m ∷ ms) p.0 p.1)
            (ok_injective (rw miss at e₂)) (pass miss ih)
    ]

pub claim_message_id : (now : ℕ) (m m' : Message) → claim_message now m ≡ ok m' → m'.id ≡ m.id
unfolding claim_message
claim_message_id now m m' e = ground arith

-- A claim returns no row whose id the table does not have, and leaves none of such an id.
pub Claims-Without :
    {now : ℕ} {ids : List ℕ} {ms old claimed : List Message} (id : ℕ)
    → Claims now ids ms old claimed
    → Without id ms
    → Without id old × Without id claimed
Claims-Without id done w = (tt, tt)
Claims-Without {now} id (take {m} {m'} hit e c) w =
    let ih = Claims-Without id c w.1 in
    let same = claim_message_id now m m' e in
    let ne = λ (p : m'.id ≡ id). w.0 (sym same ∙ p) in ((ne, ih.0), (ne, ih.1))
Claims-Without id (pass miss c) w = let ih = Claims-Without id c w.1 in ((w.0, ih.0), ih.1)

-- A row that was claimed at `now` is not due before its backoff is over.
pub is_due-claim_message :
    (now later : ℕ) (m m' : Message)
    → claim_message now m ≡ ok m'
    → later < now + m.retry_backoff
    → is_due later m' ≡ false
unfolding claim_message
is_due-claim_message now later m m' e h = ground arith

not-is_claimed :
    (now later : ℕ) (ids : List ℕ) (m m' : Message)
    → claim_message now m ≡ ok m'
    → later < now + m.retry_backoff
    → is_claimed later ids m' ≡ true
    → ⊥
not-is_claimed now later ids m m' e h hit = ground (arith, is_due-claim_message now later m m' e h)

Without-cons :
    (n : Message) (ms xs : List Message)
    → Without n.id xs
    → All (λ x. Without x.id ms) xs
    → All (λ x. Without x.id (n ∷ ms)) xs
Without-cons n ms [] w h = tt
Without-cons n ms (x ∷ xs) w h = ((λ p. w.0 (sym p), h.0), Without-cons n ms xs w.1 h.1)

-- The rows of the second claim leave out those of the first.
pub Claims_disjoint :
    {now later : ℕ} {ids₁ ids₂ : List ℕ} {ms mid old claimed₁ claimed₂ : List Message}
    → Claims now ids₁ ms mid claimed₁
    → Claims later ids₂ mid old claimed₂
    → Distinct ms
    → All (λ m. later < now + m.retry_backoff) ms
    → All (λ m. Without m.id claimed₂) claimed₁
Claims_disjoint done b d f = tt
Claims_disjoint {now} {later} {ids₂} (take {m} {m'} hit e c) (take hit' e' c') d f =
    absurd (not-is_claimed now later ids₂ m m' e f.0 hit')
Claims_disjoint {now} {claimed₂} (take {m} {m'} hit e c) (pass miss c') d f =
    let same = claim_message_id now m m' e in
    (
      subst (λ i. Without i claimed₂) (sym same)
          (Claims-Without m.id c' (Claims-Without m.id c d.0).0).1,
      Claims_disjoint c c' d.1 f.1,
    )
Claims_disjoint {later} {claimed₁} (pass {m} miss c) (take {m' = m''} {claimed} hit e c') d f =
    let same = claim_message_id later m m'' e in
    Without-cons m'' claimed claimed₁
      (subst (λ i. Without i claimed₁) (sym same) (Claims-Without m.id c d.0).1)
      (Claims_disjoint c c' d.1 f.1)
Claims_disjoint (pass miss c) (pass miss' c') d f = Claims_disjoint c c' d.1 f.1
