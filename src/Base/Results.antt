-- ===== src/Base/Results.antt =====
-- `Result<T, E>` with its `?`, as a sum and its bind.
use mathlib.Core.Path.{◌≡◌, refl}
use mathlib.Core.Logic.{◌⊎◌, inl, inr}
use mathlib.Core.Bool.{Bool, true, false}

pub data Result {ℓ κ} (E : Type ℓ) (A : Type κ) : Type (ℓ ⊔ κ) where
  ok : A → Result E A
  err : E → Result E A

module _ {ℓ κ ν} {E : Type ℓ} {A : Type κ} {B : Type ν} where
  infixl 5 ◌>>=◌ ◌>>◌
  abbrev pub ◌>>=◌ : Result E A → (A → Result E B) → Result E B
  ok a >>= f = f a
  err e >>= f = err e

  abbrev pub ◌>>◌ : Result E A → Result E B → Result E B
  m >> k = m >>= λ _. k

  -- Where a chain answers `ok`, its first step did too, and the rest goes on from there.
  pub >>=-eq-ok :
      (first : Result E A) (rest : A → Result E B) {answer : B}
      → first >>= rest ≡ ok answer
      → (found : A) × (first ≡ ok found) × (rest found ≡ ok answer)
  >>=-eq-ok (err e) rest h = cc
  >>=-eq-ok (ok found) rest h = (found, refl, h)

pub ok-injective {ℓ κ} :
    {E : Type ℓ} {A : Type κ} {a b : A} → ◌≡◌ {A = Result E A} (ok a) (ok b) → a ≡ b
ok-injective h = cc

pub Result-cases {ℓ κ} :
    {E : Type ℓ} {A : Type κ} (r : Result E A) → ((a : A) × (r ≡ ok a)) ⊎ ((e : E) × (r ≡ err e))
Result-cases (ok a) = inl (a, refl)
Result-cases (err e) = inr (e, refl)

-- An early return of `e` unless the test holds.
abbrev pub guard {ℓ} : {E : Type ℓ} → Bool → E → Result E (Unit {0})
guard true e = ok tt
guard false e = err e
