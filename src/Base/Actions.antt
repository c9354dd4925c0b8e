-- ===== src/Base/Actions.antt =====
-- Steps that pass a state on and may fail: `&mut self` with `?`.
use ytsaurus_rs.Base.Results.{Result, ok, err}

abbrev pub Action {ℓ κ ν} : Type ℓ → Type κ → Type ν → Type (ℓ ⊔ κ ⊔ ν)
Action S E A = S → Result E (A × S)

module _ {ℓ κ ν} {S : Type ℓ} {E : Type κ} {A : Type ν} where
  abbrev pub pure : A → Action S E A
  pure a s = ok (a, s)

  abbrev pub throw : E → Action S E A
  throw e s = err e

-- What follows on the answer and the state.
abbrev pub continue_with {ℓ κ ν μ} :
    {S : Type ℓ} {E : Type κ} {A : Type ν} {R : Type μ}
    → Result E (A × S)
    → (A → S → Result E R)
    → Result E R
continue_with (ok (a, s)) f = f a s
continue_with (err e) f = err e

module _ {ℓ κ ν μ} {S : Type ℓ} {E : Type κ} {A : Type ν} {B : Type μ} where
  infixl 5 ◌>>=◌ ◌>>◌
  abbrev pub ◌>>=◌ : Action S E A → (A → Action S E B) → Action S E B
  ◌>>=◌ m f s = continue_with (m s) f

  abbrev pub ◌>>◌ : Action S E A → Action S E B → Action S E B
  m >> k = m >>= λ _. k
