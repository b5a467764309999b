-- ===== src/Rekor.antt =====
-- backend/internal/cosign/rekor_inclusion.go: the walk of an RFC 6962 inclusion proof.
pub mod Tree
pub mod Rounds
pub mod Climb
pub mod Inclusion
pub mod Binding
use vaultscan.Prelude.{
  ℕ, zero, suc, ◌+◌, ◌-◌, ◌/◌, ◌%◌, Bool, true, false, ◌||◌, Option, none, some, List, [], ◌∷◌,
  ◌++◌, Bytes, length, bytes_equal, ◌==◌, not, if◌then◌else◌,
}
use mathlib.Core.Option
use vaultscan.Prelude.Int.{ℤ, pos, pos_part, ltb_ℤ, leb_ℤ}
use vaultscan.Prelude.Result.{Result, ok, err}

pub data RekorError : Type 0 where
  nil_proof out_of_range bad_digest_size trailing_entries root_mismatch : RekorError
  sibling_wrong_length : ℕ → RekorError
  proof_exhausted : ℕ → RekorError

-- The fields that the walk reads; the signed tree head is checked elsewhere.
pub record LogProof : Type 0 where
  pub leaf_hash : Bytes
  pub log_index : ℤ
  pub tree_size : ℤ
  pub hashes : List Bytes
  pub root_hash : Bytes

-- `fn >>= 1; sn >>= 1` until `fn` is odd or 0. Each round halves `fn`, so `fn` rounds of fuel are
-- enough (Rekor/Walk.antt).
unfoldable pub compress : ℕ → ℕ → ℕ → ℕ × ℕ
compress zero fn sn = (fn, sn)
compress (suc fuel) fn sn =
    let further = compress fuel (fn / 2) (sn / 2) in
    if fn % 2 == 0 then (if fn == 0 then (fn, sn) else further) else (fn, sn)

pub record Walk : Type 0 where
  pub fn : ℕ
  pub sn : ℕ
  pub r : Bytes

abbrev pub sha256_size : ℕ
sha256_size = 32

-- The first sibling, counted from `i`, that is no sha256 digest.
unfoldable pub wrong_sibling : ℕ → List Bytes → Option ℕ
wrong_sibling i [] = none
wrong_sibling i (h ∷ hs) =
    let later = wrong_sibling (i + 1) hs in if length h == sha256_size then later else some i

module _ (sha256 : Bytes → Bytes) where
  unfoldable pub hash_node : Bytes → Bytes → Bytes
  hash_node left right = sha256 (1 ∷ (left ++ right))

  unfoldable pub hash_leaf : Bytes → Bytes
  hash_leaf body = sha256 (0 ∷ body)

  -- One round of the loop over the siblings, behind its test of `sn`.
  unfoldable pub ascend : Walk → Bytes → Walk
  ascend w sibling =
      if (fn % 2 == 1) || (fn == sn)
      then (let (fn', sn') = compress fn fn sn in
          record { fn = fn' / 2; sn = sn' / 2; r = hash_node sibling r })
      else record { fn = fn / 2; sn = sn / 2; r = hash_node r sibling }
    where
      open w use {fn, sn, r}

  unfoldable pub walk : Walk → List Bytes → Result RekorError Walk
  walk w [] = ok w
  walk w (sibling ∷ rest) =
      let further = walk (ascend w sibling) rest in
      if w.sn == 0 then err trailing_entries else further

  unfoldable pub check_root : Bytes → Result RekorError Walk → Option RekorError
  check_root root (err e) = some e
  check_root root (ok w) =
      if not (w.sn == 0)
      then some (proof_exhausted w.sn)
      else if not (bytes_equal w.r root)
      then some root_mismatch
      else none

  unfoldable pub verify_sizes : LogProof → Option RekorError
  verify_sizes p =
      if ltb_ℤ p.log_index (pos 0) || leb_ℤ p.tree_size (pos 0) || leb_ℤ p.tree_size p.log_index
      then some out_of_range
      else if not (length p.leaf_hash == sha256_size) || not (length p.root_hash == sha256_size)
      then some bad_digest_size
      else Option.map sibling_wrong_length (wrong_sibling 0 p.hashes)

  -- `none` is Go's nil error: the proof is accepted. Behind the range test the index and the size
  -- are not negative, so that `>> 1` is division by two.
  unfoldable pub verify_inclusion : Option LogProof → Option RekorError
  verify_inclusion none = some nil_proof
  verify_inclusion (some p) =
      let outcome = check_root p.root_hash (
        walk (record { fn = pos_part p.log_index; sn = pos_part p.tree_size - 1; r = p.leaf_hash })
          p.hashes) in
      elim (verify_sizes p) [ some e ↦ some e | none ↦ outcome ]
