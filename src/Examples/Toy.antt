-- ===== src/Examples/Toy.antt =====
-- A digest that is easy to follow in the place of sha256: 32 copies of a weighted sum of the bytes.
use vaultscan.Prelude.{ℕ, zero, suc, ◌+◌, ◌%◌, ◌*◌, ◌≡◌, refl, [], ◌∷◌, Bytes, length}

weigh : ℕ → Bytes → ℕ
weigh acc [] = acc
weigh acc (b ∷ bs) = weigh ((acc * 3 + b) % 251) bs

copies : ℕ → ℕ → Bytes
copies zero b = []
copies (suc n) b = b ∷ copies n b

unfoldable pub toy_digest : Bytes → Bytes
unfolding weigh copies
toy_digest b = copies 32 (weigh 7 b)

pub toy_digest-size : (b : Bytes) → length (toy_digest b) ≡ 32
unfolding toy_digest
toy_digest-size b = refl
