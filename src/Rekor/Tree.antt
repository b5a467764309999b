-- ===== src/Rekor/Tree.antt =====
-- RFC 6962 §2.1 and §2.1.1: the root hash and the audit path of a list of leaf hashes, which
-- backend/internal/cosign/rekor_inclusion.go takes from the log. The RFC splits n leaves at the
-- largest power of two below n. Here `j` is any level with n ≤ 2 ^ j, and a level at which all
-- leaves fit in the left half is passed over.
use vaultscan.Prelude.{
  ℕ, zero, suc, ◌-◌, ◌^◌, ◌≤◌, ◌<◌, ◌≡◌, Bool, true, false, List, [], ◌∷◌, ◌++◌, arith, Bytes,
  length, take, drop, ltb, leb,
}
use vaultscan.Rekor.{hash_node}

abbrev pub fits : ℕ → List Bytes → Bool
fits j xs = leb (length xs) (2 ^ j)

module _ (sha256 : Bytes → Bytes) where
  unfoldable pub mth : ℕ → List Bytes → Bytes
  mth zero [] = sha256 []
  mth zero (x ∷ xs) = x
  mth (suc j) xs = elim (fits j xs) [
    | true ↦ mth j xs
    | false ↦ sha256 (1 ∷ (mth j (take (2 ^ j) xs) ++ mth j (drop (2 ^ j) xs)))
  ]

  unfoldable pub audit_path : ℕ → ℕ → List Bytes → List Bytes
  unfolding mth
  audit_path zero m xs = []
  audit_path (suc j) m xs = elim (fits j xs) [
    | true ↦ audit_path j m xs
    | false ↦ elim (ltb m (2 ^ j)) [
      | true ↦ audit_path j m (take (2 ^ j) xs) ++ mth j (drop (2 ^ j) xs) ∷ []
      | false ↦ audit_path j (m - 2 ^ j) (drop (2 ^ j) xs) ++ mth j (take (2 ^ j) xs) ∷ []
    ]
  ]

  module _ (j : ℕ) (xs : List Bytes) where
    pub mth_promote : length xs ≤ 2 ^ j → mth (suc j) xs ≡ mth j xs
    unfolding mth
    mth_promote h = ground arith

    pub mth_split :
        2 ^ j < length xs
        → mth (suc j) xs ≡ hash_node sha256 (mth j (take (2 ^ j) xs)) (mth j (drop (2 ^ j) xs))
    unfolding mth hash_node
    mth_split h = ground arith

    module _ (m : ℕ) where
      pub audit_path_promote : length xs ≤ 2 ^ j → audit_path (suc j) m xs ≡ audit_path j m xs
      unfolding audit_path
      audit_path_promote h = ground arith

      pub audit_path_left :
          2 ^ j < length xs
          → m < 2 ^ j
          → audit_path (suc j) m xs
            ≡ audit_path j m (take (2 ^ j) xs) ++ mth j (drop (2 ^ j) xs) ∷ []
      unfolding audit_path
      audit_path_left h l = ground arith

      pub audit_path_right :
          2 ^ j < length xs
          → 2 ^ j ≤ m
          → audit_path (suc j) m xs
            ≡ audit_path j (m - 2 ^ j) (drop (2 ^ j) xs) ++ mth j (take (2 ^ j) xs) ∷ []
      unfolding audit_path
      audit_path_right h l = ground arith
