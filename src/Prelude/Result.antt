-- ===== src/Prelude/Result.antt =====
-- Go's `(value, error)` results, over the error type of each component.
use mathlib.Core.Path.{◌≡◌, refl}

pub data Result {ℓ κ} (E : Type κ) (A : Type ℓ) : Type (ℓ ⊔ κ) where
  err : E → Result E A
  ok : A → Result E A

module _ {ℓ κ μ} {E : Type μ} {A : Type ℓ} {B : Type κ} where
  infixl 5 ◌>>=◌
  abbrev pub ◌>>=◌ : Result E A → (A → Result E B) → Result E B
  err why >>= next = err why
  ok value >>= next = next value

  -- What comes back without an error has passed both halves.
  pub >>=-eq-ok :
      {b : B} (next : A → Result E B) (r : Result E A)
      → r >>= next ≡ ok b
      → (value : A) × (r ≡ ok value) × (next value ≡ ok b)
  >>=-eq-ok next (err why) e = cc
  >>=-eq-ok next (ok value) e = (value, refl, e)
