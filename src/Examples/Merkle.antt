-- ===== src/Examples/Merkle.antt =====
-- Tests of Rekor and its children: a log of five entries.
use vaultscan.Prelude.{ℕ, ◌≡◌, ◌⊎◌, refl, none, some, List, [], ◌∷◌, arith, Bytes, codes, get_elem?}
use vaultscan.Prelude.Int.{pos, negsuc}
use vaultscan.Rekor.{
  LogProof, verify_sizes, check_root, wrong_sibling, walk, ascend, compress, hash_node,
  verify_inclusion, hash_leaf, out_of_range, root_mismatch, proof_exhausted,
}
use vaultscan.Examples.Toy.{toy_digest, toy_digest-size}
use vaultscan.Prelude.Digest.{Collision}
use vaultscan.Rekor.Tree.{mth, audit_path}
use vaultscan.Rekor.Inclusion.{rfc_proof, verify_inclusion_complete}
use vaultscan.Rekor.Binding.{verify_inclusion_unique, verify_inclusion_sound}

abbrev entries : List Bytes
entries = codes "a" ∷ codes "b" ∷ codes "c" ∷ codes "d" ∷ codes "e" ∷ []

verify_inclusion_complete_example :
    verify_inclusion toy_digest (some (rfc_proof toy_digest 3 4 entries (codes "e"))) ≡ none
verify_inclusion_complete_example =
    verify_inclusion_complete toy_digest toy_digest-size 3 4 entries (codes "e") (omega arith) refl

abbrev proof_of_c : LogProof
proof_of_c = rfc_proof toy_digest 3 2 entries (codes "c")

accepted_c : verify_inclusion toy_digest (some proof_of_c) ≡ none
accepted_c =
    verify_inclusion_complete toy_digest toy_digest-size 3 2 entries (codes "c") (omega arith) refl

verify_inclusion_unique_example :
    ((proof_of_c.leaf_hash ≡ proof_of_c.leaf_hash) × (proof_of_c.hashes ≡ proof_of_c.hashes))
    ⊎ Collision toy_digest
verify_inclusion_unique_example =
    verify_inclusion_unique toy_digest toy_digest-size proof_of_c proof_of_c accepted_c accepted_c
      refl refl refl

verify_inclusion_sound_example :
    ((m : ℕ) × (proof_of_c.log_index ≡ pos m) × (get_elem? entries m ≡ some (codes "c")))
    ⊎ Collision toy_digest
verify_inclusion_sound_example =
    verify_inclusion_sound toy_digest toy_digest-size 3 entries proof_of_c (codes "c") (omega arith)
      refl refl refl accepted_c

rejects_wrong_index :
    verify_inclusion toy_digest (some (record proof_of_c { log_index = pos 3 }))
    ≡ some root_mismatch
unfolding verify_inclusion verify_sizes check_root wrong_sibling walk ascend compress hash_node
    hash_leaf toy_digest mth audit_path
rejects_wrong_index = refl

rejects_short_proof :
    verify_inclusion toy_digest (some (record proof_of_c { hashes = [] }))
    ≡ some (proof_exhausted 4)
unfolding verify_inclusion verify_sizes check_root wrong_sibling walk hash_leaf toy_digest mth
    hash_node
rejects_short_proof = refl

rejects_negative_index :
    verify_inclusion toy_digest (some (record proof_of_c { log_index = negsuc 0 }))
    ≡ some out_of_range
unfolding verify_inclusion verify_sizes
rejects_negative_index = refl
