-- ===== src/Audit/Intact.antt =====
-- What `VerifyDeep` and `Verify` (backend/internal/audit/ops.go, audit.go) report of a table.

use vaultscan.Prelude.{
  ℕ, ◌+◌, ◌<◌, ◌≡◌, ◌≢◌, ◌⊎◌, inl, inr, refl, ◌∙◌, sym, true, false, Option, none, some, List, [],
  ◌∷◌, Bytes, length, arith, bytes_equal, bytes_equal_refl, bytes_equal→eq, Bool-cases,
}
use vaultscan.Audit.{AuditLib, Row, compute_row_hash}
use vaultscan.Audit.Verify.{
  Scan, visit, visit_all, start, report, verify_deep, verify_deep_chunk_size,
}
use vaultscan.Audit.Pages.{IsAscending, IsAscending-weaken, after-all, scan_pages-eq-visit_all}

differs : {a b : Bytes} → bytes_equal a b ≡ false → a ≢ b
differs {a} h e = let h' = rw (← e) at h in cc (bytes_equal_refl a, h')

module _ (lib : AuditLib) where
  -- Each row's hash is the hash computed from the stored hash of the row before it.
  abbrev pub IsChained : Option Bytes → List Row → Type 0
  IsChained prev [] = Unit
  IsChained prev (r ∷ rs) =
      (compute_row_hash lib prev r ≡ r.chain_hash) × IsChained (some r.chain_hash) rs

  -- The rows are chained up to a row with id `k`, and that row is not.
  abbrev pub IsFirstBad : ℕ → Option Bytes → List Row → Type 0
  IsFirstBad k prev [] = ⊥
  IsFirstBad k prev (r ∷ rs) =
      ((r.id ≡ k) × (compute_row_hash lib prev r ≢ r.chain_hash))
      ⊎ ((compute_row_hash lib prev r ≡ r.chain_hash) × IsFirstBad k (some r.chain_hash) rs)

  visit-last_id : (s : Scan) (r : Row) → (visit lib s r).last_id ≡ r.id
  unfolding visit
  visit-last_id s r = refl

  unfoldable pub deep_scan : List Row → Scan
  deep_scan = visit_all (visit lib) (start none 0)

  pub verify_deep-eq :
      (rows : List Row)
      → IsAscending 0 rows
      → verify_deep lib rows ≡ some (deep_scan rows, report (deep_scan rows))
  unfolding verify_deep deep_scan
  verify_deep-eq rows asc =
      let all = after-all 0 rows asc in
      let scanned =
        scan_pages-eq-visit_all (visit lib) visit-last_id verify_deep_chunk_size rows (start none 0)
          (omega arith) (rw all asc) in
      rw scanned (rw all)

  -- A break once found stays the first.
  first_bad_stays :
      (s : Scan) (rows : List Row)
      → 0 < s.first_bad
      → (visit_all (visit lib) s rows).first_bad ≡ s.first_bad
  unfolding visit_all visit
  first_bad_stays s [] h = refl
  first_bad_stays s (r ∷ rs) h = ground (arith, first_bad_stays (visit lib s r) rs)

  total_counts :
      (s : Scan) (rows : List Row) → (visit_all (visit lib) s rows).total ≡ s.total + length rows
  unfolding visit_all visit
  total_counts s [] = omega arith
  total_counts s (r ∷ rs) = omega (arith, total_counts (visit lib s r) rs)

  visit_good :
      (s : Scan) (r : Row)
      → s.first_bad ≡ 0
      → bytes_equal (compute_row_hash lib s.prev r) r.chain_hash ≡ true
      → (visit lib s r).first_bad ≡ 0
  unfolding visit
  visit_good s r z h = ground arith

  visit_bad :
      (s : Scan) (r : Row)
      → s.first_bad ≡ 0
      → bytes_equal (compute_row_hash lib s.prev r) r.chain_hash ≡ false
      → (visit lib s r).first_bad ≡ r.id
  unfolding visit
  visit_bad s r z h = ground arith

  visit-prev : (s : Scan) (r : Row) → (visit lib s r).prev ≡ some r.chain_hash
  unfolding visit
  visit-prev s r = refl

  scan_verdict :
      (s : Scan) (prev : Option Bytes) (rows : List Row)
      → s.first_bad ≡ 0
      → s.prev ≡ prev
      → IsAscending 0 rows
      → (((visit_all (visit lib) s rows).first_bad ≡ 0) × IsChained prev rows)
        ⊎ ((0 < (visit_all (visit lib) s rows).first_bad)
            × IsFirstBad ((visit_all (visit lib) s rows).first_bad) prev rows)
  unfolding visit_all
  scan_verdict s prev [] z p asc = inl (z, tt)
  scan_verdict s prev (r ∷ rs) z p asc =
      elim (Bool-cases (bytes_equal (compute_row_hash lib prev r) r.chain_hash)) [
        | inl good ↦
            let same = bytes_equal→eq _ _ good in
            let ih =
              scan_verdict (visit lib s r) (some r.chain_hash) rs (visit_good s r z (rw p good))
                (visit-prev s r) (IsAscending-weaken 0 r.id rs (omega arith) asc.1) in
            elim ih [
              | inl (none_bad, chained) ↦ inl (none_bad, (same, chained))
              | inr (some_bad, later) ↦ inr (some_bad, inr (same, later))
            ]
        | inr bad ↦
            let e = visit_bad s r z (rw p bad) in
            let stays = first_bad_stays (visit lib s r) rs (omega (arith, e, asc.0)) in
            inr (omega (arith, stays, e, asc.0), inl (sym (stays ∙ e), differs bad))
      ]

  -- `VerifyDeep` ends, counts every row, and reports 0 exactly for a chained table; otherwise it
  -- reports the first row that breaks the chain, and writes the break down. The ids are those of a
  -- sequence: they grow, from 1.
  pub verify_deep-verdict :
      (rows : List Row)
      → IsAscending 0 rows
      → (s : Scan) × (verify_deep lib rows ≡ some (s, report s))
        × (s.total ≡ length rows)
        × (((s.first_bad ≡ 0) × IsChained none rows × (report s ≡ none))
            ⊎ ((0 < s.first_bad)
                × IsFirstBad s.first_bad none rows
                × (report s
                    ≡ some (record { first_bad_id = s.first_bad; last_good_id = s.last_good }))))
  verify_deep-verdict rows asc = (
    deep_scan rows,
    verify_deep-eq rows asc,
    unfold deep_scan in omega (arith, total_counts (start none 0) rows),
    unfold deep_scan report in
        elim (scan_verdict (start none 0) none rows refl refl asc) [
          | inl (z, chained) ↦ inl (z, chained, ground arith)
          | inr (pos, bad) ↦ inr (pos, bad, ground arith)
        ],
  )
