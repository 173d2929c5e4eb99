-- ===== src/Prelude/Members.antt =====
-- What tests and predicates on lists say of the members.
use mathlib.Core.Path.{◌≡◌, refl, sym, ap, ap₂, subst, ◌∙◌}
use mathlib.Core.Logic.{inl, inr}
use mathlib.Core.Bool.{Bool, true, false, false≢true}
use mathlib.Core.List.{List, [], ◌∷◌, ◌++◌, map, Memᴰ}
use native.Mathlib.Omega.{arith}
use sqlxmq.Prelude.Tests.{Bool-cases}
use sqlxmq.Prelude.Lists.{All, any, filter}

module _ {ℓ} {A : Type ℓ} where
  pub All-Memᴰ {κ} : (P : A → Type κ) {x : A} (xs : List A) → All P xs → Memᴰ x xs → P x
  All-Memᴰ P [] h m = elim m [ ]
  All-Memᴰ P (y ∷ xs) h (Memᴰ.head e) = subst P (sym e) h.0
  All-Memᴰ P (y ∷ xs) h (Memᴰ.tail m) = All-Memᴰ P xs h.1 m

  pub All-of_Memᴰ {κ} : (P : A → Type κ) (xs : List A) → ((x : A) → Memᴰ x xs → P x) → All P xs
  All-of_Memᴰ P [] f = tt
  All-of_Memᴰ P (x ∷ xs) f = (f x (Memᴰ.head refl), All-of_Memᴰ P xs (λ y m. f y (Memᴰ.tail m)))

  pub Memᴰ-filter :
      (p : A → Bool) (x : A) (xs : List A) → Memᴰ x (filter p xs) → Memᴰ x xs × (p x ≡ true)
  Memᴰ-filter p x [] m = elim m [ ]
  Memᴰ-filter p x (y ∷ xs) m = elim (Bool-cases (p y)) [
    | inl e ↦ first e (rw e at m) (Memᴰ-filter p x xs)
    | inr e ↦ let rest = Memᴰ-filter p x xs (rw e at m) in (Memᴰ.tail rest.0, rest.1)
  ]
    where
      first :
          p y ≡ true
          → Memᴰ x (y ∷ filter p xs)
          → (Memᴰ x (filter p xs) → Memᴰ x xs × (p x ≡ true))
          → Memᴰ x (y ∷ xs) × (p x ≡ true)
      first e (Memᴰ.head q) ih = (Memᴰ.head q, ap p q ∙ e)
      first e (Memᴰ.tail k) ih = (Memᴰ.tail (ih k).0, (ih k).1)

  pub Memᴰ-map {κ} :
      {B : Type κ} (f : A → B) (y : B) (xs : List A)
      → Memᴰ y (map f xs)
      → (x : A) × Memᴰ x xs × (y ≡ f x)
  Memᴰ-map f y [] m = elim m [ ]
  Memᴰ-map f y (x ∷ xs) (Memᴰ.head e) = (x, Memᴰ.head refl, e)
  Memᴰ-map f y (x ∷ xs) (Memᴰ.tail m) = let (z, k, e) = Memᴰ-map f y xs m in (z, Memᴰ.tail k, e)

  pub Memᴰ-any : (p : A → Bool) (xs : List A) → any p xs ≡ true → (x : A) × Memᴰ x xs × (p x ≡ true)
  Memᴰ-any p [] e = absurd (cc)
  Memᴰ-any p (x ∷ xs) e = elim (Bool-cases (p x)) [
    | inl hit ↦ (x, Memᴰ.head refl, hit)
    | inr miss ↦ let (y, m, h) = Memᴰ-any p xs (rw miss at e) in (y, Memᴰ.tail m, h)
  ]

  pub any_of_Memᴰ : (p : A → Bool) {x : A} (xs : List A) → Memᴰ x xs → p x ≡ true → any p xs ≡ true
  any_of_Memᴰ p [] m h = elim m [ ]
  any_of_Memᴰ p (y ∷ xs) (Memᴰ.head e) h = rw (sym (ap p e) ∙ h)
  any_of_Memᴰ p (y ∷ xs) (Memᴰ.tail m) h = ground (arith, any_of_Memᴰ p xs m h)

  pub any-false :
      (p : A → Bool) (xs : List A) → ((x : A) → Memᴰ x xs → p x ≡ false) → any p xs ≡ false
  any-false p [] f = refl
  any-false p (x ∷ xs) f = rw (f x (Memᴰ.head refl)) (any-false p xs (λ y m. f y (Memᴰ.tail m)))

  pub filter-Memᴰ :
      (p : A → Bool) {x : A} (xs : List A) → Memᴰ x xs → p x ≡ true → Memᴰ x (filter p xs)
  filter-Memᴰ p [] m h = m
  filter-Memᴰ p (y ∷ xs) (Memᴰ.head e) h = rw (sym (ap p e) ∙ h) (Memᴰ.head e)
  filter-Memᴰ p (y ∷ xs) (Memᴰ.tail m) h = elim (Bool-cases (p y)) [
    | inl hit ↦ rw hit (Memᴰ.tail (filter-Memᴰ p xs m h))
    | inr miss ↦ rw miss (filter-Memᴰ p xs m h)
  ]

  pub map-Memᴰ {κ} :
      {B : Type κ} (f : A → B) {x : A} (xs : List A) → Memᴰ x xs → Memᴰ (f x) (map f xs)
  map-Memᴰ f [] m = elim m [ ]
  map-Memᴰ f (y ∷ xs) (Memᴰ.head e) = Memᴰ.head (ap f e)
  map-Memᴰ f (y ∷ xs) (Memᴰ.tail m) = Memᴰ.tail (map-Memᴰ f xs m)

  pub none_of_any :
      (p : A → Bool) (xs : List A) (x : A) → any p xs ≡ false → Memᴰ x xs → p x ≡ false
  none_of_any p xs x e k = elim (Bool-cases (p x)) [
    | inl hit ↦ absurd (false≢true (sym e ∙ any_of_Memᴰ p xs k hit))
    | inr miss ↦ miss
  ]

  pub map_same : (f : A → A) (xs : List A) → ((x : A) → Memᴰ x xs → f x ≡ x) → map f xs ≡ xs
  map_same f [] h = refl
  map_same f (x ∷ xs) h = ap₂ ◌∷◌ (h x (Memᴰ.head refl)) (map_same f xs (λ y k. h y (Memᴰ.tail k)))

  pub Memᴰ-append_left : {x : A} (xs ys : List A) → Memᴰ x xs → Memᴰ x (xs ++ ys)
  Memᴰ-append_left [] ys m = elim m [ ]
  Memᴰ-append_left (y ∷ xs) ys (Memᴰ.head e) = Memᴰ.head e
  Memᴰ-append_left (y ∷ xs) ys (Memᴰ.tail m) = Memᴰ.tail (Memᴰ-append_left xs ys m)
