-- ===== src/Prelude/Errors.antt =====
-- `Result<T, sqlx::Error>`: an error of the database carries its code and constraint, as
-- `as_database_error` gives them; any other is one of the client's.
use mathlib.Core.Path.{◌≡◌, refl}
use mathlib.Core.Logic.{◌⊎◌, inl, inr}
use mathlib.Core.Option.{Option}
use mathlib.Core.Bool.{Bool, true, false}
use Prim.Native.String.{String}

pub data SqlxError : Type 0 where
  database : Option String → Option String → SqlxError
  client : SqlxError

pub data Fallible {ℓ} (A : Type ℓ) : Type ℓ where
  ok : A → Fallible A
  err : SqlxError → Fallible A

infixl 5 ◌>>=◌ ◌>>◌
abbrev pub ◌>>=◌ {ℓ κ} : {T : Type ℓ} {U : Type κ} → Fallible T → (T → Fallible U) → Fallible U
ok value >>= then = then value
err x >>= then = err x

abbrev pub ◌>>◌ {ℓ} : {T : Type ℓ} → Fallible (Unit {0}) → Fallible T → Fallible T
first >> rest = first >>= λ _. rest

abbrev pub guard : Bool → SqlxError → Fallible (Unit {0})
guard true x = ok tt
guard false x = err x

-- Inversion of a successful bind.
pub >>=-eq-ok {ℓ κ} :
    {A : Type ℓ} {B : Type κ} (first : Fallible A) (then : A → Fallible B) {result : B}
    → (first >>= then) ≡ ok result
    → (value : A) × (first ≡ ok value) × (then value ≡ ok result)
>>=-eq-ok (ok value) then e = (value, refl, e)
>>=-eq-ok (err x) then e = cc

pub ok_injective {ℓ} : {A : Type ℓ} {a b : A} → ok a ≡ ok b → a ≡ b
ok_injective e = cc

pub >>=-eq-err {ℓ κ} :
    {A : Type ℓ} {B : Type κ} (m : Fallible A) (f : A → Fallible B) {x : SqlxError}
    → (m >>= f) ≡ err x
    → (m ≡ err x) ⊎ ((a : A) × (m ≡ ok a) × (f a ≡ err x))
>>=-eq-err (ok a) f h = inr (a, refl, h)
>>=-eq-err (err e) f h = inl (cc)

pub err_injective {ℓ} :
    {A : Type ℓ} {x y : SqlxError} → ◌≡◌ {A = Fallible A} (err x) (err y) → x ≡ y
err_injective e = cc

pub not-ok-err {ℓ} : {A : Type ℓ} {a : A} {x : SqlxError} → ¬ (ok a ≡ err x)
not-ok-err e = cc

-- The error of a guard that is followed by success.
pub guard-err {ℓ} :
    {A : Type ℓ} (t : Bool) (a : A) {x y : SqlxError} → (guard t x >> ok a) ≡ err y → x ≡ y
guard-err true a e = absurd (not-ok-err e)
guard-err false a e = err_injective e

pub Fallible-cases {ℓ} :
    {A : Type ℓ} (m : Fallible A) → ((x : SqlxError) × (m ≡ err x)) ⊎ ((a : A) × (m ≡ ok a))
Fallible-cases (ok a) = inr (a, refl)
Fallible-cases (err x) = inl (x, refl)
