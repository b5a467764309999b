-- ===== src/Audit/Tamper.antt =====
-- What a chain of hashes (backend/internal/audit/audit.go) binds: the whole table, by its last hash.
use mathlib.Core.List.{append_assoc}
use vaultscan.Prelude.{
  ◌≡◌, ◌⊎◌, inl, inr, refl, ◌∙◌, sym, Option, none, some, List, [], ◌∷◌, ◌++◌, Bytes, length, arith,
}
use vaultscan.Prelude.Digest.{Collision, same_text, append_injective}
use vaultscan.Audit.{AuditLib, Row, compute_row_hash, metadata, last_hash, deref_str}
use vaultscan.Audit.Intact.{IsChained}

module _ (lib : AuditLib) where
  -- What the hash of a row covers beside the hash before it: the metadata and then the payload.
  abbrev pub material : Row → Bytes
  material r = metadata lib r ++ r.payload

  -- Row by row the same material and the same hash.
  abbrev pub SameRows : List Row → List Row → Type 0
  SameRows [] [] = Unit
  SameRows [] (s ∷ ss) = ⊥
  SameRows (r ∷ rs) [] = ⊥
  SameRows (r ∷ rs) (s ∷ ss) =
      (material r ≡ material s) × (r.chain_hash ≡ s.chain_hash) × SameRows rs ss

module _ (lib : AuditLib) (digest : (b : Bytes) → length (lib.sha256 b) ≡ 32) where
  row_bound :
      (p q : Option Bytes) (r s : Row)
      → length (deref_str p) ≡ length (deref_str q)
      → compute_row_hash lib p r ≡ r.chain_hash
      → compute_row_hash lib q s ≡ s.chain_hash
      → r.chain_hash ≡ s.chain_hash
      → ((deref_str p ≡ deref_str q) × (material lib r ≡ material lib s)) ⊎ Collision lib.sha256
  unfolding compute_row_hash
  row_bound p q r s n hr hs e = elim (same_text lib.sha256 _ _ (hr ∙ e ∙ sym hs)) [
    | inl same ↦ inl (append_injective (deref_str p) _ (deref_str q) _ n same)
    | inr c ↦ inr c
  ]

  hash_size :
      (p : Option Bytes) (r : Row)
      → compute_row_hash lib p r ≡ r.chain_hash
      → length r.chain_hash ≡ 32
  unfolding compute_row_hash
  hash_size p r h = rw (← h) (digest _)

  tables_bound :
      (p q : Option Bytes) (r : Row) (rs : List Row) (s : Row) (ss : List Row)
      → length (deref_str p) ≡ length (deref_str q)
      → length rs ≡ length ss
      → IsChained lib p (r ∷ rs)
      → IsChained lib q (s ∷ ss)
      → last_hash (r ∷ rs) ≡ last_hash (s ∷ ss)
      → ((deref_str p ≡ deref_str q) × SameRows lib (r ∷ rs) (s ∷ ss)) ⊎ Collision lib.sha256
  unfolding last_hash
  tables_bound p q r [] s [] n m hr hs e =
      let same : r.chain_hash ≡ s.chain_hash = cc in
      elim (row_bound p q r s n hr.0 hs.0 same) [
        | inl (prev, text) ↦ inl (prev, (text, same, tt))
        | inr c ↦ inr c
      ]
  tables_bound p q r [] s (s' ∷ ss) n m hr hs e = absurd (omega arith)
  tables_bound p q r (r' ∷ rs) s [] n m hr hs e = absurd (omega arith)
  tables_bound p q r (r' ∷ rs) s (s' ∷ ss) n m hr hs e =
      let size = hash_size p r hr.0 ∙ sym (hash_size q s hs.0) in
      elim (tables_bound (some r.chain_hash) (some s.chain_hash) r' rs s' ss size (omega arith) hr.1
        hs.1 e) [
          | inl (same, rest) ↦ elim (row_bound p q r s n hr.0 hs.0 same) [
            | inl (prev, text) ↦ inl (prev, (text, same, rest))
            | inr c ↦ inr c
          ]
          | inr c ↦ inr c
        ]

  -- Two intact tables of one length that end in the same hash agree row by row in everything that
  -- the hashes cover, or they show two texts with one sha256 digest. sha256 is any function into 32
  -- bytes.
  pub last_hash-binds :
      (rows rows' : List Row)
      → length rows ≡ length rows'
      → IsChained lib none rows
      → IsChained lib none rows'
      → last_hash rows ≡ last_hash rows'
      → SameRows lib rows rows' ⊎ Collision lib.sha256
  last_hash-binds [] [] n h h' e = inl tt
  last_hash-binds [] (s ∷ ss) n h h' e = absurd (omega arith)
  last_hash-binds (r ∷ rs) [] n h h' e = absurd (omega arith)
  last_hash-binds (r ∷ rs) (s ∷ ss) n h h' e =
      elim (tables_bound none none r rs s ss refl (omega arith) h h' e) [
        | inl (_, same) ↦ inl same
        | inr c ↦ inr c
      ]

module _ (lib : AuditLib) where
  -- The separator is not escaped: a `|` may move from the end of the target type to the start of the
  -- target id, and the other way round, under the same hash.
  pub target_boundary :
      (prev : Option Bytes) (r : Row) (t u i : Bytes)
      → compute_row_hash lib prev
          (record r { target_type = some (t ++ (b'|' ∷ u)); target_id = some i })
        ≡ compute_row_hash lib prev
            (record r { target_type = some t; target_id = some (u ++ (b'|' ∷ i)) })
  unfolding compute_row_hash metadata
  target_boundary prev r t u i = ground (arith, append_assoc t (b'|' ∷ u) (b'|' ∷ i))
