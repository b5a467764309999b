-- ===== src/Prelude/Digest.antt =====
-- What is proved of code that calls a digest holds for every function in its place, up to two texts
-- that it maps to one digest.
use mathlib.Core.Path.{◌≡◌, refl}
use mathlib.Core.Logic.{◌≢◌, ◌⊎◌, inl, inr}
use mathlib.Core.List.{[], ◌∷◌, ◌++◌}
use native.Mathlib.Omega.{arith}
use vaultscan.Prelude.Lists.{Bytes, length, Bytes-discrete}

module _ (sha256 : Bytes → Bytes) where
  -- Two texts with one digest.
  pub record Collision : Type 0 where
    pub left : Bytes
    pub right : Bytes
    pub differ : left ≢ right
    pub same_digest : sha256 left ≡ sha256 right

  pub same_text : (a b : Bytes) → sha256 a ≡ sha256 b → (a ≡ b) ⊎ Collision
  same_text a b e = elim (Bytes-discrete a b) [
    | yes same ↦ inl same
    | no other ↦ inr (record { left = a; right = b; differ = other; same_digest = e })
  ]

pub append_injective :
    (xs ys us vs : Bytes) → length xs ≡ length us → xs ++ ys ≡ us ++ vs → (xs ≡ us) × (ys ≡ vs)
append_injective [] ys [] vs n e = (refl, e)
append_injective [] ys (u ∷ us) vs n e = absurd (omega arith)
append_injective (x ∷ xs) ys [] vs n e = absurd (omega arith)
append_injective (x ∷ xs) ys (u ∷ us) vs n e =
    let (same, rest) = append_injective xs ys us vs (omega arith) (cc) in (cc, rest)
