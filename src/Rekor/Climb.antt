-- ===== src/Rekor/Climb.antt =====
-- The loop of `VerifyInclusion` (backend/internal/cosign/rekor_inclusion.go) climbs from a leaf of a
-- subtree to the subtree's root.
use mathlib.Core.List.{append_assoc, cons-ne-nil}
use native.Mathlib.Nat.{
  pow-succ', pow-suc, one-le-pow, le-div_iff_mul-le, div-eq_of_lt-le, div-div-eq-div-mul, div-one,
  mul-one, add-zero,
}
use vaultscan.Prelude.{
  ℕ, zero, suc, ◌+◌, ◌-◌, ◌*◌, ◌/◌, ◌^◌, ◌≤◌, ◌<◌, ◌≡◌, ◌∙◌, ◌⊎◌, ◌≢◌, inl, inr, refl, List, [],
  ◌∷◌, ◌++◌, arith, Bytes, some, length, take, drop, get_elem?, length-take, length-drop,
  get_elem?-take, get_elem?-drop, dec_lt,
}
use vaultscan.Rekor.{walk}
use vaultscan.Rekor.Tree.{
  mth, audit_path, mth_promote, mth_split, audit_path_promote, audit_path_left, audit_path_right,
}
use vaultscan.Rekor.Rounds.{at, left_round, right_round, edge_round}

pow_pos : (j : ℕ) → 0 < 2 ^ j
pow_pos j = one-le-pow j 2 (omega arith)

-- The number of a node, from the number of the node above it.
left_index : (j a m : ℕ) → a * 2 ^ suc j + m ≡ 2 * a * 2 ^ j + m
left_index j a m = rw (pow-succ' 2 j) (omega arith)

right_index : (j a m : ℕ) → 2 ^ j ≤ m → a * 2 ^ suc j + m ≡ (2 * a + 1) * 2 ^ j + (m - 2 ^ j)
right_index j a m h = rw (pow-succ' 2 j) (omega arith)

le_level : (j a sn : ℕ) → a * 2 ^ j ≤ sn → a ≤ sn / 2 ^ j
le_level j a sn h = (le-div_iff_mul-le (pow_pos j)).1 h

level_up : (j sn : ℕ) → sn / 2 ^ j / 2 ≡ sn / 2 ^ suc j
level_up j sn = rw pow-suc (div-div-eq-div-mul sn (2 ^ j) 2)

room_below : (j a sn : ℕ) → (a + 1) * 2 ^ suc j ≤ sn → (2 * a + 1 + 1) * 2 ^ j ≤ sn
room_below j a sn h = let h' = rw (pow-succ' 2 j) at h in omega arith

odd_half : (a : ℕ) → (2 * a + 1) / 2 ≡ a
odd_half a = omega arith

-- The last leaf of a tree that is more than half full stands under the right one of two nodes.
last_pair : (j a n : ℕ) → 2 ^ j ≤ n → n < 2 * 2 ^ j → (a * 2 ^ suc j + n) / 2 ^ j ≡ 2 * a + 1
last_pair j a n h h' =
    rw (pow-succ' 2 j) (div-eq_of_lt-le {k = 2 * a + 1} (2 ^ j) (omega arith) (omega arith))

still_on : (a : ℕ) (rest : List Bytes) → (a ≡ 0) ⊎ (rest ≢ []) → (2 * a ≡ 0) ⊎ (rest ≢ [])
still_on a rest (inl e) = inl (omega arith)
still_on a rest (inr h) = inr h

one_leaf :
    (xs : List Bytes) (m : ℕ) (x : Bytes) → length xs ≡ 1 → get_elem? xs m ≡ some x → xs ≡ x ∷ []
one_leaf [] m x n h = absurd (omega arith)
one_leaf (y ∷ []) zero x n h = ground arith
one_leaf (y ∷ []) (suc m) x n h = cc
one_leaf (y ∷ z ∷ xs) m x n h = absurd (omega arith)

module _ (sha256 : Bytes → Bytes) where
  module _ (j a m sn : ℕ) (xs : List Bytes) (x : Bytes) (rest : List Bytes) where
    descend_left :
        2 ^ j < length xs
        → m < 2 ^ j
        → walk sha256 (at (a * 2 ^ suc j + m) sn x) (audit_path sha256 (suc j) m xs ++ rest)
          ≡ walk sha256
              (at (2 * a * 2 ^ j + m) sn x)
              (audit_path sha256 j m (take (2 ^ j) xs) ++ (mth sha256 j (drop (2 ^ j) xs) ∷ rest))
    descend_left big l = rw (audit_path_left sha256 j xs m big l, append_assoc, left_index j a m)

    descend_right :
        2 ^ j < length xs
        → 2 ^ j ≤ m
        → walk sha256 (at (a * 2 ^ suc j + m) sn x) (audit_path sha256 (suc j) m xs ++ rest)
          ≡ walk sha256 (at ((2 * a + 1) * 2 ^ j + (m - 2 ^ j)) sn x) (
              audit_path sha256 j (m - 2 ^ j) (drop (2 ^ j) xs)
              ++ (mth sha256 j (take (2 ^ j) xs) ∷ rest))
    descend_right big l =
        rw (audit_path_right sha256 j xs m big l, append_assoc, right_index j a m l)

  -- In a full subtree that is not the last of its level no node is without sibling.
  pub climb_full :
      (j a m sn : ℕ) (xs : List Bytes) (x : Bytes) (rest : List Bytes)
      → length xs ≡ 2 ^ j
      → get_elem? xs m ≡ some x
      → m < 2 ^ j
      → (a + 1) * 2 ^ j ≤ sn
      → walk sha256 (at (a * 2 ^ j + m) sn x) (audit_path sha256 j m xs ++ rest)
        ≡ walk sha256 (at a (sn / 2 ^ j) (mth sha256 j xs)) rest
  climb_full zero a m sn xs x rest full at_m below room =
      let e : m ≡ 0 = omega arith in
      rw (one_leaf xs m x full at_m, e, mul-one, add-zero, div-one) (unfold mth audit_path in refl)
  climb_full (suc j) a m sn xs x rest full at_m below room =
      let twice : 2 ^ suc j ≡ 2 * 2 ^ j = pow-succ' 2 j in
      let some_leaf : 0 < 2 ^ j = pow_pos j in
      let big : 2 ^ j < length xs = omega arith in
      let wide : (2 * a + 1 + 1) * 2 ^ j ≤ sn = room_below j a sn room in
      let left = mth sha256 j (take (2 ^ j) xs) in
      let right = mth sha256 j (drop (2 ^ j) xs) in
      elim (dec_lt m (2 ^ j)) [
        | yes l ↦
            descend_left j a m sn xs x rest big l
            ∙ climb_full j (2 * a) m sn (take (2 ^ j) xs) x (right ∷ rest)
                (omega (arith, length-take (2 ^ j) xs)) (get_elem?-take (2 ^ j) xs m l ∙ at_m) l
                (omega arith)
            ∙ left_round sha256 a (sn / 2 ^ j) left right rest
                (omega (arith, le_level j (2 * a + 1) sn (omega arith)))
            ∙ rw (level_up j sn, mth_split sha256 j xs big)
        | no r ↦
            descend_right j a m sn xs x rest big (omega arith)
            ∙ climb_full j (2 * a + 1) (m - 2 ^ j) sn (drop (2 ^ j) xs) x (left ∷ rest)
                (omega (arith, length-drop (2 ^ j) xs))
                (get_elem?-drop (2 ^ j) xs m (omega arith) ∙ at_m) (omega arith) wide
            ∙ right_round sha256 a (sn / 2 ^ j) right left rest (le_level j 1 sn (omega arith))
            ∙ rw (level_up j sn, mth_split sha256 j xs big)
      ]

  -- A node on the right edge goes up unchanged while siblings are left, and stops at the top.
  edge_or_top :
      (a : ℕ) (r : Bytes) (rest : List Bytes)
      → (a ≡ 0) ⊎ (rest ≢ [])
      → walk sha256 (at (2 * a) (2 * a) r) rest ≡ walk sha256 (at a a r) rest
  edge_or_top zero r rest on = refl
  edge_or_top (suc a) r [] on = absurd (ground arith)
  edge_or_top (suc a) r (sib ∷ rest) on = edge_round sha256 (suc a) r sib rest (omega arith)

  -- The last subtree of a level may have fewer leaves; it is either the whole tree, or its path
  -- goes on above it.
  pub climb_last :
      (j a m n : ℕ) (xs : List Bytes) (x : Bytes) (rest : List Bytes)
      → length xs ≡ suc n
      → suc n ≤ 2 ^ j
      → get_elem? xs m ≡ some x
      → m ≤ n
      → (a ≡ 0) ⊎ (rest ≢ [])
      → walk sha256 (at (a * 2 ^ j + m) (a * 2 ^ j + n) x) (audit_path sha256 j m xs ++ rest)
        ≡ walk sha256 (at a a (mth sha256 j xs)) rest
  climb_last zero a m n xs x rest size fit at_m below on =
      let e : m ≡ 0 = omega arith in
      let e' : n ≡ 0 = omega arith in
      rw (one_leaf xs m x (omega arith) at_m, e, e', mul-one, add-zero)
        (unfold mth audit_path in refl)
  climb_last (suc j) a m n xs x rest size fit at_m below on =
      let twice : 2 ^ suc j ≡ 2 * 2 ^ j = pow-succ' 2 j in
      let left = mth sha256 j (take (2 ^ j) xs) in
      let right = mth sha256 j (drop (2 ^ j) xs) in
      elim (dec_lt n (2 ^ j)) [
        | yes small ↦
            rw
              (
                left_index j a m,
                left_index j a n,
                audit_path_promote sha256 j xs m (omega arith),
                mth_promote sha256 j xs (omega arith),
              )
              (climb_last j (2 * a) m n xs x rest size small at_m below (still_on a rest on)
                ∙ edge_or_top a (mth sha256 j xs) rest on)
        | no large ↦
            let big : 2 ^ j < length xs = omega arith in
            let pair = last_pair j a n (omega arith) (omega arith) in
            elim (dec_lt m (2 ^ j)) [
              | yes l ↦
                  descend_left j a m (a * 2 ^ suc j + n) xs x rest big l
                  ∙ climb_full j (2 * a) m (a * 2 ^ suc j + n) (take (2 ^ j) xs) x (right ∷ rest)
                      (omega (arith, length-take (2 ^ j) xs)) (get_elem?-take (2 ^ j) xs m l ∙ at_m)
                      l (rw (pow-succ' 2 j) (omega arith))
                  ∙ left_round sha256 a ((a * 2 ^ suc j + n) / 2 ^ j) left right rest
                      (omega (arith, pair))
                  ∙ rw (pair, odd_half a, mth_split sha256 j xs big)
              | no r ↦
                  descend_right j a m (a * 2 ^ suc j + n) xs x rest big (omega arith)
                  ∙ (rw (← right_index j a n (omega arith)) at (
                      climb_last j (2 * a + 1) (m - 2 ^ j) (n - 2 ^ j) (drop (2 ^ j) xs) x
                        (left ∷ rest) (omega (arith, length-drop (2 ^ j) xs)) (omega arith)
                        (get_elem?-drop (2 ^ j) xs m (omega arith) ∙ at_m) (omega arith)
                        (inr (cons-ne-nil left rest))))
                  ∙ right_round sha256 a (2 * a + 1) right left rest (omega arith)
                  ∙ rw (odd_half a, mth_split sha256 j xs big)
            ]
      ]
