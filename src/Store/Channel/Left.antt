-- ===== src/Store/Channel/Left.antt =====
-- The rows that a deletion leaves, and where they stood.
use sqlxmq.Prelude.{
  ℕ, String, ◌≡◌, refl, sym, ap, ◌∙◌, ◌⊎◌, subst, inl, inr, Bool, true, false, ◌&&◌, not, List, map,
  some, sql_eq, any, filter, Memᴰ, Memᴰ-any, Memᴰ-filter, Memᴰ-map, none_of_any, filter-Memᴰ,
  map-Memᴰ, Bool-cases, some_injective, arith,
}
use sqlxmq.Store.{Message, uuid_nil}
use sqlxmq.Store.Remove.{relink}
use sqlxmq.Store.Channel.{Follows}

-- What becomes of a message that is kept.
pub relink_cases :
    (gone : Message → Bool) (ms : List Message) (m : Message)
    → ((d : Message) × Memᴰ d ms
        × (gone d ≡ true)
        × (m.after_message_id ≡ some d.id)
        × (relink gone ms m ≡ record m { after_message_id = some uuid_nil }))
      ⊎ (((d : Message) → Memᴰ d ms → gone d ≡ true → ¬ (m.after_message_id ≡ some d.id))
          × (relink gone ms m ≡ m))
unfolding relink
relink_cases gone ms m =
    elim (Bool-cases (any (λ d. gone d && sql_eq m.after_message_id d.id) ms)) [
      | inl hit ↦
          let (d, kd, h) =
            Memᴰ-any (λ (d : Message). gone d && sql_eq m.after_message_id d.id) ms hit in
          inl (d, kd, ground arith, ground arith, rw hit refl)
      | inr miss ↦ inr (
        (λ d kd g e.
            let n =
              none_of_any (λ (d : Message). gone d && sql_eq m.after_message_id d.id) ms d miss
                kd in
            ground arith),
        rw miss refl,
      )
    ]

pub relink_id :
    (gone : Message → Bool) (ms : List Message) (m : Message) → (relink gone ms m).id ≡ m.id
relink_id gone ms m = elim (relink_cases gone ms m) [
  | inl (_, _, _, _, r) ↦ ap (λ (x : Message). x.id) r
  | inr (_, r) ↦ ap (λ (x : Message). x.id) r
]

module _ (gone : Message → Bool) (ms ms' : List Message) where
  -- The table after the deletion.
  abbrev pub IsLeft : Type 0
  IsLeft = ms' ≡ map (relink gone ms) (filter (λ m. not (gone m)) ms)

  pub left_member :
      IsLeft → (b : Message) → Memᴰ b ms → gone b ≡ false → Memᴰ (relink gone ms b) ms'
  left_member e b k g =
      subst (Memᴰ (relink gone ms b)) (sym e)
        (map-Memᴰ _ _ (filter-Memᴰ (λ m. not (gone m)) ms k (ground arith)))

  pub left_origin :
      IsLeft
      → (b' : Message) → Memᴰ b' ms'
      → (b : Message) × Memᴰ b ms × (gone b ≡ false) × (b' ≡ relink gone ms b)
  left_origin e b' k =
      let (b, kb, q) = Memᴰ-map _ b' _ (subst (Memᴰ b') e k) in
      let (kb', g) = Memᴰ-filter (λ m. not (gone m)) b ms kb in (b, kb', ground arith, q)

  -- Where a message stood that is kept: in the same place, or it stands behind the nil message now.
  pub Follows-origin :
      {name args : String}
      → IsLeft
      → (i j : ℕ) → Follows ms' name args i j
      → (h : ℕ) × (p : Follows ms name args h j) × (gone p.message ≡ false)
        × (((i ≡ uuid_nil) × (d : Message) × Memᴰ d ms × (gone d ≡ true) × (d.id ≡ h)) ⊎ (h ≡ i))
  Follows-origin e i j p =
      let (b, kb, g, q) = left_origin e p.message p.member in
      elim (relink_cases gone ms b) [
        | inl (d, kd, gd, after, r) ↦
            let z = q ∙ r in
            (
              d.id,
              record {
                message = b;
                member = kb;
                channel = (
                  sym (ap (λ (m : Message). m.channel_name) z) ∙ p.channel.0,
                  sym (ap (λ (m : Message). m.channel_args) z) ∙ p.channel.1,
                );
                after = after;
                same = sym (ap (λ (m : Message). m.id) z) ∙ p.same;
              },
              g,
              inl (
                some_injective (sym p.after ∙ ap (λ (m : Message). m.after_message_id) z),
                d,
                kd,
                gd,
                refl,
              ),
            )
        | inr (_, r) ↦
            let z = q ∙ r in
            (
              i,
              record {
                message = b;
                member = kb;
                channel = (
                  sym (ap (λ (m : Message). m.channel_name) z) ∙ p.channel.0,
                  sym (ap (λ (m : Message). m.channel_args) z) ∙ p.channel.1,
                );
                after = sym (ap (λ (m : Message). m.after_message_id) z) ∙ p.after;
                same = sym (ap (λ (m : Message). m.id) z) ∙ p.same;
              },
              g,
              inr refl,
            )
      ]
