-- ===== src/Rekor/Rounds.antt =====
-- The rounds of the loop of `VerifyInclusion` (backend/internal/cosign/rekor_inclusion.go).
use vaultscan.Prelude.{
  ℕ, zero, suc, ◌+◌, ◌*◌, ◌/◌, ◌%◌, ◌≤◌, ◌<◌, ◌≡◌, ◌∙◌, ◌⊎◌, refl, sym, List, ◌∷◌, arith, Bytes, ap,
}
use vaultscan.Rekor.{Walk, compress, hash_node, ascend, walk}

abbrev pub at : ℕ → ℕ → Bytes → Walk
at fn sn r = record { fn = fn; sn = sn; r = r }

-- Fuel beyond `fn` rounds changes nothing.
pub compress_fuel : (k l fn sn : ℕ) → fn ≤ k → fn ≤ l → compress k fn sn ≡ compress l fn sn
unfolding compress
compress_fuel zero zero fn sn h h' = refl
compress_fuel zero (suc l) fn sn h h' = ground arith
compress_fuel (suc k) zero fn sn h h' = ground arith
compress_fuel (suc k) (suc l) fn sn h h' = ground (arith, compress_fuel k l (fn / 2) (sn / 2))

-- With `fn` rounds of fuel the inner loop ends by its own test.
pub compress_ends :
    (k fn sn : ℕ) → fn ≤ k → ((compress k fn sn).0 ≡ 0) ⊎ ((compress k fn sn).0 % 2 ≡ 1)
unfolding compress
compress_ends zero fn sn h = ground arith
compress_ends (suc k) fn sn h = ground (arith, compress_ends k (fn / 2) (sn / 2))

compress_odd : (k fn sn : ℕ) → fn % 2 ≡ 1 → compress k fn sn ≡ (fn, sn)
unfolding compress
compress_odd zero fn sn h = refl
compress_odd (suc k) fn sn h = ground arith

compress_even :
    (k fn sn : ℕ) → fn % 2 ≡ 0 → 0 < fn → compress (suc k) fn sn ≡ compress k (fn / 2) (sn / 2)
unfolding compress
compress_even k fn sn h p = ground arith

half_double : (n : ℕ) → 2 * n / 2 ≡ n
half_double n = omega arith

-- Halving both bounds once leads from 2n, 2n to n, n.
compress_double :
    (a : ℕ) → compress (2 * suc a) (2 * suc a) (2 * suc a) ≡ compress (suc a) (suc a) (suc a)
compress_double a =
    compress_fuel (2 * suc a) (suc (2 * suc a)) (2 * suc a) (2 * suc a) (omega arith) (omega arith)
    ∙ compress_even (2 * suc a) (2 * suc a) (2 * suc a) (omega arith) (omega arith)
    ∙ rw half_double (compress_fuel (2 * suc a) (suc a) (suc a) (suc a) (omega arith) (omega arith))

module _ (sha256 : Bytes → Bytes) where
  pub ascend_left :
      (a s : ℕ) (r sib : Bytes)
      → 2 * a < s
      → ascend sha256 (record { fn = 2 * a; sn = s; r = r }) sib
        ≡ record { fn = a; sn = s / 2; r = hash_node sha256 r sib }
  unfolding ascend
  ascend_left a s r sib h = ground arith

  pub ascend_right :
      (a s : ℕ) (r sib : Bytes)
      → ascend sha256 (record { fn = 2 * a + 1; sn = s; r = r }) sib
        ≡ record { fn = a; sn = s / 2; r = hash_node sha256 sib r }
  unfolding ascend
  ascend_right a s r sib = ground (arith, compress_odd (2 * a + 1) (2 * a + 1) s)

  -- On the right edge of the tree a node that has no sibling is passed over.
  pub ascend_edge :
      (a : ℕ) (r sib : Bytes)
      → ascend sha256 (record { fn = 2 * a; sn = 2 * a; r = r }) sib
        ≡ ascend sha256 (record { fn = a; sn = a; r = r }) sib
  unfolding ascend
  ascend_edge zero r sib = refl
  ascend_edge (suc a) r sib = ground (arith, compress_double a)

  pub walk_cons :
      (w : Walk) (sib : Bytes) (rest : List Bytes)
      → 0 < w.sn
      → walk sha256 w (sib ∷ rest) ≡ walk sha256 (ascend sha256 w sib) rest
  unfolding walk
  walk_cons w sib rest h = ground arith

  -- A left child takes its sibling on the right.
  pub left_round :
      (a s : ℕ) (r sib : Bytes) (rest : List Bytes)
      → 2 * a < s
      → walk sha256 (at (2 * a) s r) (sib ∷ rest)
        ≡ walk sha256 (at a (s / 2) (hash_node sha256 r sib)) rest
  left_round a s r sib rest h =
      walk_cons (at (2 * a) s r) sib rest (omega arith)
      ∙ ap (λ w. walk sha256 w rest) (ascend_left a s r sib h)

  -- A right child takes its sibling on the left.
  pub right_round :
      (a s : ℕ) (r sib : Bytes) (rest : List Bytes)
      → 0 < s
      → walk sha256 (at (2 * a + 1) s r) (sib ∷ rest)
        ≡ walk sha256 (at a (s / 2) (hash_node sha256 sib r)) rest
  right_round a s r sib rest h =
      walk_cons (at (2 * a + 1) s r) sib rest h
      ∙ ap (λ w. walk sha256 w rest) (ascend_right a s r sib)

  -- The last node of a level without sibling waits for the next level.
  pub edge_round :
      (a : ℕ) (r sib : Bytes) (rest : List Bytes)
      → 0 < a
      → walk sha256 (at (2 * a) (2 * a) r) (sib ∷ rest) ≡ walk sha256 (at a a r) (sib ∷ rest)
  edge_round a r sib rest h =
      walk_cons (at (2 * a) (2 * a) r) sib rest (omega arith)
      ∙ ap (λ w. walk sha256 w rest) (ascend_edge a r sib)
      ∙ sym (walk_cons (at a a r) sib rest h)
