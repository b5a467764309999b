-- ===== src/Rekor/Inclusion.antt =====
-- What `VerifyInclusion` (backend/internal/cosign/rekor_inclusion.go) accepts: the audit paths of
-- RFC 6962.

use native.Mathlib.Nat.{zero-mul, zero-add}
use mathlib.Core.List.{append-nil}
use vaultscan.Prelude.{
  ℕ, zero, suc, ◌+◌, ◌-◌, ◌^◌, ◌≤◌, ◌<◌, ◌≡◌, inl, refl, List, [], ◌∷◌, arith, Bytes, none, some,
  length, take, drop, get_elem?, map, All, All-append, length-map, get_elem?-map, bytes_equal_refl,
  true, false, Bool, ltb,
}
use vaultscan.Prelude.Int.{pos}
use vaultscan.Prelude.Result.{ok}
use vaultscan.Rekor.{
  LogProof, hash_leaf, walk, sha256_size, wrong_sibling, verify_inclusion, verify_sizes, check_root,
}
use vaultscan.Rekor.Tree.{mth, audit_path, fits}
use vaultscan.Rekor.Rounds.{at}
use vaultscan.Rekor.Climb.{climb_last}

abbrev pub IsDigest : Bytes → Type 0
IsDigest h = length h ≡ sha256_size

pub wrong_sibling-none : (i : ℕ) (hs : List Bytes) → All IsDigest hs → wrong_sibling i hs ≡ none
unfolding wrong_sibling
wrong_sibling-none i [] d = refl
wrong_sibling-none i (h ∷ hs) d = ground (arith, wrong_sibling-none (i + 1) hs d.1)

pub wrong_sibling-IsDigest : (i : ℕ) (hs : List Bytes) → wrong_sibling i hs ≡ none → All IsDigest hs
unfolding wrong_sibling
wrong_sibling-IsDigest i [] e = tt
wrong_sibling-IsDigest i (h ∷ hs) e = ground (arith, wrong_sibling-IsDigest (i + 1) hs)

keep_cases :
    {A : Type 0} (P : A → Type 0) (b : Bool) (x y : A)
    → P x
    → P y
    → P (elim b [ true ↦ x | false ↦ y ])
keep_cases P true x y px py = px
keep_cases P false x y px py = py

pub below_length : (xs : List Bytes) (m : ℕ) (x : Bytes) → get_elem? xs m ≡ some x → m < length xs
below_length [] m x e = cc
below_length (y ∷ xs) zero x e = omega arith
below_length (y ∷ xs) (suc m) x e = omega (arith, below_length xs m x e)

module _ (sha256 : Bytes → Bytes) where
  -- The proof that a log hands out for leaf m of its first n entries, as the RFC defines it.
  abbrev pub rfc_proof : (j m : ℕ) (bodies : List Bytes) (body : Bytes) → LogProof
  rfc_proof j m bodies body =
      let leaves = map (hash_leaf sha256) bodies in
      record {
        leaf_hash = hash_leaf sha256 body;
        log_index = pos m;
        tree_size = pos (length bodies);
        hashes = audit_path sha256 j m leaves;
        root_hash = mth sha256 j leaves;
      }

module _ (sha256 : Bytes → Bytes) (digest : (b : Bytes) → length (sha256 b) ≡ sha256_size) where
  All-take : (n : ℕ) (xs : List Bytes) → All IsDigest xs → All IsDigest (take n xs)
  All-take zero xs d = tt
  All-take (suc n) [] d = tt
  All-take (suc n) (x ∷ xs) d = (d.0, All-take n xs d.1)

  All-drop : (n : ℕ) (xs : List Bytes) → All IsDigest xs → All IsDigest (drop n xs)
  All-drop zero xs d = d
  All-drop (suc n) [] d = tt
  All-drop (suc n) (x ∷ xs) d = All-drop n xs d.1

  pub mth-IsDigest : (j : ℕ) (xs : List Bytes) → All IsDigest xs → IsDigest (mth sha256 j xs)
  unfolding mth
  mth-IsDigest zero [] d = digest []
  mth-IsDigest zero (x ∷ xs) d = d.0
  mth-IsDigest (suc j) xs d = keep_cases IsDigest (fits j xs) _ _ (mth-IsDigest j xs d) (digest _)

  pub audit_path-IsDigest :
      (j m : ℕ) (xs : List Bytes) → All IsDigest xs → All IsDigest (audit_path sha256 j m xs)
  unfolding audit_path
  audit_path-IsDigest zero m xs d = tt
  audit_path-IsDigest (suc j) m xs d =
      let left = All-take (2 ^ j) xs d in
      let right = All-drop (2 ^ j) xs d in
      keep_cases (All IsDigest) (fits j xs) _ _ (audit_path-IsDigest j m xs d) (
        keep_cases (All IsDigest) (ltb m (2 ^ j)) _ _
          (All-append IsDigest _ _ (audit_path-IsDigest j m (take (2 ^ j) xs) left)
            (mth-IsDigest j (drop (2 ^ j) xs) right, tt))
          (All-append IsDigest _ _ (audit_path-IsDigest j (m - 2 ^ j) (drop (2 ^ j) xs) right)
            (mth-IsDigest j (take (2 ^ j) xs) left, tt)))

  pub leaves-IsDigest : (bodies : List Bytes) → All IsDigest (map (hash_leaf sha256) bodies)
  unfolding hash_leaf
  leaves-IsDigest [] = tt
  leaves-IsDigest (b ∷ bs) = (digest _, leaves-IsDigest bs)

  verify_sizes-rfc_proof :
      (j m : ℕ) (bodies : List Bytes) (body : Bytes)
      → get_elem? bodies m ≡ some body
      → verify_sizes sha256 (rfc_proof sha256 j m bodies body) ≡ none
  unfolding verify_sizes hash_leaf
  verify_sizes-rfc_proof j m bodies body at_m =
      let leaves = map (hash_leaf sha256) bodies in
      let all = leaves-IsDigest bodies in
      ground (
        arith,
        digest (0 ∷ body),
        mth-IsDigest j leaves all,
        below_length bodies m body at_m,
        wrong_sibling-none 0 (audit_path sha256 j m leaves) (audit_path-IsDigest j m leaves all),
      )

  walk-rfc_proof :
      (j m n : ℕ) (leaves : List Bytes) (leaf : Bytes)
      → length leaves ≡ suc n
      → suc n ≤ 2 ^ j
      → get_elem? leaves m ≡ some leaf
      → walk sha256 (at m n leaf) (audit_path sha256 j m leaves) ≡ ok (at 0 0 (mth sha256 j leaves))
  unfolding walk
  walk-rfc_proof j m n leaves leaf size fit at_m =
      let climbed =
        climb_last sha256 j 0 m n leaves leaf [] size fit at_m
          (omega (arith, below_length leaves m leaf at_m)) (inl refl) in
      rw (zero-mul, zero-add, zero-add, append-nil) at climbed

  -- `VerifyInclusion` accepts the RFC 6962 proof of every entry of a log: for a log of at most 2^j
  -- entries whose m-th is `body`, the audit path of m leads from the entry's leaf hash to the root
  -- hash, at any number of entries. sha256 is any function into 32 bytes.
  pub verify_inclusion_complete :
      (j m : ℕ) (bodies : List Bytes) (body : Bytes)
      → length bodies ≤ 2 ^ j
      → get_elem? bodies m ≡ some body
      → verify_inclusion sha256 (some (rfc_proof sha256 j m bodies body)) ≡ none
  unfolding verify_inclusion check_root
  verify_inclusion_complete j m bodies body fit at_m =
      let leaves = map (hash_leaf sha256) bodies in
      let sizes = verify_sizes-rfc_proof j m bodies body at_m in
      let count = length-map (hash_leaf sha256) bodies in
      let inside = below_length bodies m body at_m in
      let climbed =
        walk-rfc_proof j m (length bodies - 1) leaves (hash_leaf sha256 body)
          (omega (arith, count, inside)) (omega (arith, inside, fit))
          (get_elem?-map (hash_leaf sha256) bodies m body at_m) in
      ground (arith, sizes, climbed, bytes_equal_refl (mth sha256 j leaves))
