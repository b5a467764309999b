-- ===== src/Rekor/Binding.antt =====
-- Two proofs that `VerifyInclusion` (backend/internal/cosign/rekor_inclusion.go) accepts for one
-- index, size and root are the same, or hold a collision of sha256.
use vaultscan.Prelude.{
  ℕ, zero, suc, ◌-◌, ◌^◌, ◌≤◌, ◌<◌, ◌≡◌, ◌∙◌, ◌⊎◌, inl, inr, refl, sym, ap, List, [], ◌∷◌, ◌++◌,
  arith, Bytes, none, some, length, get_elem?, map, All, bytes_equal→eq,
}
use vaultscan.Prelude.Int.{ℤ, pos, negsuc}
use vaultscan.Prelude.Result.{Result, ok, err}
use vaultscan.Rekor.{
  LogProof, RekorError, hash_node, hash_leaf, walk, Walk, ascend, sha256_size, verify_inclusion,
  verify_sizes, check_root,
}
use vaultscan.Prelude.Digest.{Collision, same_text, append_injective}
use vaultscan.Rekor.Tree.{mth}
use vaultscan.Rekor.Rounds.{at}
use vaultscan.Rekor.Inclusion.{
  IsDigest, wrong_sibling-IsDigest, rfc_proof, verify_inclusion_complete,
}

get_elem?-some : (xs : List Bytes) (m : ℕ) → m < length xs → (x : Bytes) × (get_elem? xs m ≡ some x)
get_elem?-some [] m h = absurd (omega arith)
get_elem?-some (x ∷ xs) zero h = (x, refl)
get_elem?-some (x ∷ xs) (suc m) h = get_elem?-some xs m (omega arith)

ℤ-cases : (z : ℤ) → ((m : ℕ) × (z ≡ pos m)) ⊎ ((m : ℕ) × (z ≡ negsuc m))
ℤ-cases (pos m) = inl (m, refl)
ℤ-cases (negsuc m) = inr (m, refl)

module _ (sha256 : Bytes → Bytes) where
  pub hash_leaf-injective :
      (a b : Bytes) → hash_leaf sha256 a ≡ hash_leaf sha256 b → (a ≡ b) ⊎ Collision sha256
  unfolding hash_leaf
  hash_leaf-injective a b e = elim (same_text sha256 (0 ∷ a) (0 ∷ b) e) [
    | inl same ↦ inl (cc)
    | inr c ↦ inr c
  ]

  hash_node-injective :
      (l r l' r' : Bytes)
      → IsDigest l
      → IsDigest l'
      → hash_node sha256 l r ≡ hash_node sha256 l' r'
      → ((l ≡ l') × (r ≡ r')) ⊎ Collision sha256
  unfolding hash_node
  hash_node-injective l r l' r' d d' e = elim (same_text sha256 (1 ∷ (l ++ r)) (1 ∷ (l' ++ r')) e) [
    | inl same ↦ inl (append_injective l r l' r' (omega arith) (cc))
    | inr c ↦ inr c
  ]

  -- At equal indices two rounds take the same turn.
  ascend_turn :
      (w w' : Walk) (s s' : Bytes)
      → w.fn ≡ w'.fn
      → w.sn ≡ w'.sn
      → ((ascend sha256 w s).fn ≡ (ascend sha256 w' s').fn)
        × ((ascend sha256 w s).sn ≡ (ascend sha256 w' s').sn)
        × ((((ascend sha256 w s).r ≡ hash_node sha256 s w.r)
              × ((ascend sha256 w' s').r ≡ hash_node sha256 s' w'.r))
            ⊎ (((ascend sha256 w s).r ≡ hash_node sha256 w.r s)
                × ((ascend sha256 w' s').r ≡ hash_node sha256 w'.r s')))
  unfolding ascend
  ascend_turn w w' s s' f n = ground arith

  -- The siblings and the running hash before a round, from the running hash after it.
  ascend_injective :
      (w w' : Walk) (s s' : Bytes)
      → w.fn ≡ w'.fn
      → w.sn ≡ w'.sn
      → IsDigest w.r
      → IsDigest w'.r
      → IsDigest s
      → IsDigest s'
      → (ascend sha256 w s).r ≡ (ascend sha256 w' s').r
      → ((w.r ≡ w'.r) × (s ≡ s')) ⊎ Collision sha256
  ascend_injective w w' s s' f n dw dw' ds ds' e = elim (ascend_turn w w' s s' f n).2 [
    | inl (a, b) ↦ elim (hash_node-injective s w.r s' w'.r ds ds' (sym a ∙ e ∙ b)) [
      | inl (x, y) ↦ inl (y, x)
      | inr c ↦ inr c
    ]
    | inr (a, b) ↦ hash_node-injective w.r s w'.r s' dw dw' (sym a ∙ e ∙ b)
  ]

module _ (sha256 : Bytes → Bytes) (digest : (b : Bytes) → length (sha256 b) ≡ sha256_size) where
  ascend-IsDigest : (w : Walk) (s : Bytes) → IsDigest (ascend sha256 w s).r
  unfolding ascend hash_node
  ascend-IsDigest w s = ground (arith, digest (1 ∷ (s ++ w.r)), digest (1 ∷ (w.r ++ s)))

  walk_injective :
      (hs hs' : List Bytes) (w w' v v' : Walk)
      → w.fn ≡ w'.fn
      → w.sn ≡ w'.sn
      → IsDigest w.r
      → IsDigest w'.r
      → All IsDigest hs
      → All IsDigest hs'
      → walk sha256 w hs ≡ ok v
      → walk sha256 w' hs' ≡ ok v'
      → v.sn ≡ 0
      → v'.sn ≡ 0
      → v.r ≡ v'.r
      → ((w.r ≡ w'.r) × (hs ≡ hs')) ⊎ Collision sha256
  unfolding walk
  walk_injective [] [] w w' v v' f n d d' ds ds' e e' z z' r = inl (ground arith, refl)
  walk_injective [] (s ∷ hs) w w' v v' f n d d' ds ds' e e' z z' r = absurd (ground arith)
  walk_injective (s ∷ hs) [] w w' v v' f n d d' ds ds' e e' z z' r = absurd (ground arith)
  walk_injective (s ∷ hs) (s' ∷ hs') w w' v v' f n d d' ds ds' e e' z z' r =
      let turn = ascend_turn sha256 w w' s s' f n in
      elim (walk_injective hs hs' (ascend sha256 w s) (ascend sha256 w' s') v v' turn.0 turn.1
        (ascend-IsDigest w s) (ascend-IsDigest w' s') ds.1 ds'.1 (ground arith) (ground arith) z z'
        r) [
          | inl (same, tails) ↦ elim (ascend_injective sha256 w w' s s' f n d d' ds.0 ds'.0 same) [
            | inl (a, b) ↦ inl (a, cc)
            | inr c ↦ inr c
          ]
          | inr c ↦ inr c
        ]

  index_of :
      (p : LogProof)
      → verify_sizes sha256 p ≡ none
      → (m n : ℕ) × (p.log_index ≡ pos m) × (p.tree_size ≡ pos n) × (m < n)
  unfolding verify_sizes
  index_of p e = elim (ℤ-cases p.log_index) [
    | inl (m, em) ↦ elim (ℤ-cases p.tree_size) [
      | inl (n, en) ↦ (m, n, em, en, ground arith)
      | inr (n, en) ↦ absurd (ground arith)
    ]
    | inr (m, em) ↦ absurd (ground arith)
  ]

  digests_of :
      (p : LogProof) → verify_sizes sha256 p ≡ none → IsDigest p.leaf_hash × All IsDigest p.hashes
  unfolding verify_sizes
  digests_of p e = ground (arith, wrong_sibling-IsDigest 0 p.hashes)

  check_root-none :
      (root : Bytes) (o : Result RekorError Walk)
      → check_root sha256 root o ≡ none
      → (top : Walk) × (o ≡ ok top) × (top.sn ≡ 0) × (top.r ≡ root)
  unfolding check_root
  check_root-none root (err x) e = cc
  check_root-none root (ok w) e = (w, refl, ground arith, ground (arith, bytes_equal→eq w.r root))

  outcome_of :
      (p : LogProof) (m n : ℕ)
      → verify_inclusion sha256 (some p) ≡ none
      → p.log_index ≡ pos m
      → p.tree_size ≡ pos n
      → (top : Walk) × (walk sha256 (at m (n - 1) p.leaf_hash) p.hashes ≡ ok top)
        × (top.sn ≡ 0)
        × (top.r ≡ p.root_hash)
  unfolding verify_inclusion
  outcome_of p m n e em en =
      let start = walk sha256 (at m (n - 1) p.leaf_hash) p.hashes in
      check_root-none p.root_hash start (ground arith)

  accepted-sizes :
      (p : LogProof) → verify_inclusion sha256 (some p) ≡ none → verify_sizes sha256 p ≡ none
  unfolding verify_inclusion
  accepted-sizes p e = ground arith

  -- Two accepted proofs for one index, tree size and root have the same leaf hash and the same
  -- siblings, or they show two texts with one sha256 digest. sha256 is any function into 32 bytes.
  pub verify_inclusion_unique :
      (p q : LogProof)
      → verify_inclusion sha256 (some p) ≡ none
      → verify_inclusion sha256 (some q) ≡ none
      → p.log_index ≡ q.log_index
      → p.tree_size ≡ q.tree_size
      → p.root_hash ≡ q.root_hash
      → ((p.leaf_hash ≡ q.leaf_hash) × (p.hashes ≡ q.hashes)) ⊎ Collision sha256
  verify_inclusion_unique p q e e' same_index same_size same_root =
      let (m, n, em, en, _) = index_of p (accepted-sizes p e) in
      let (leaf, siblings) = digests_of p (accepted-sizes p e) in
      let (leaf', siblings') = digests_of q (accepted-sizes q e') in
      let (top, climbs, z, on_root) = outcome_of p m n e em en in
      let (top', climbs', z', on_root') =
        outcome_of q m n e' (sym same_index ∙ em) (sym same_size ∙ en) in
      walk_injective p.hashes q.hashes (at m (n - 1) p.leaf_hash) (at m (n - 1) q.leaf_hash) top
        top' refl refl leaf leaf' siblings siblings' climbs climbs' z z'
        (on_root ∙ same_root ∙ sym on_root')

  -- An accepted proof that `content` is a leaf, against the RFC 6962 root of a log of at most 2^j
  -- entries and at its size, says the truth: `content` is the entry at the proof's index, or the
  -- proof shows two texts with one sha256 digest.
  pub verify_inclusion_sound :
      (j : ℕ) (bodies : List Bytes) (p : LogProof) (content : Bytes)
      → length bodies ≤ 2 ^ j
      → p.tree_size ≡ pos (length bodies)
      → p.root_hash ≡ mth sha256 j (map (hash_leaf sha256) bodies)
      → p.leaf_hash ≡ hash_leaf sha256 content
      → verify_inclusion sha256 (some p) ≡ none
      → ((m : ℕ) × (p.log_index ≡ pos m) × (get_elem? bodies m ≡ some content)) ⊎ Collision sha256
  verify_inclusion_sound j bodies p content fit size root leaf e =
      let (m, n, em, en, below) = index_of p (accepted-sizes p e) in
      let (body, at_m) = get_elem?-some bodies m (ground arith) in
      let q = rfc_proof sha256 j m bodies body in
      elim (verify_inclusion_unique p q e
        (verify_inclusion_complete sha256 digest j m bodies body fit at_m) em size root) [
          | inl (same, _) ↦ elim (hash_leaf-injective sha256 content body (sym leaf ∙ same)) [
            | inl same_body ↦ inl (m, em, at_m ∙ ap some (sym same_body))
            | inr c ↦ inr c
          ]
          | inr c ↦ inr c
        ]
