-- ===== src/Audit/Incremental.antt =====
-- The loop of `VerifyIncremental` (backend/internal/audit/ops.go) beside that of `VerifyDeep`.

use vaultscan.Prelude.{
  ℕ, ◌≤◌, ◌<◌, ◌≡◌, inl, inr, refl, true, Option, some, List, [], ◌∷◌, Bytes, ◌==◌, arith, dec_lt,
  bytes_equal, bytes_equal_refl, bytes_equal→eq, Bool-cases, ==_iff, All,
}
use vaultscan.Audit.{AuditLib, Row, compute_row_hash}
use vaultscan.Audit.Verify.{Scan, visit, visit_incremental, visit_all}
use vaultscan.Audit.Pages.{IsAscending}
use vaultscan.Audit.Intact.{IsChained}
use vaultscan.Audit.Append.{last_from}

-- The same verdict, and as long as it is good the same hash to go on from.
pub record Agree (s t : Scan) : Type 0 where
  pub verdict : s.first_bad ≡ t.first_bad
  pub hash : s.first_bad ≡ 0 → s.prev ≡ t.prev

module _ (lib : AuditLib) where
  visit-Agree :
      (s t : Scan) (r : Row) → Agree s t → Agree (visit_incremental lib s r) (visit lib t r)
  unfolding visit_incremental visit
  visit-Agree s t r a = elim (Bool-cases (s.first_bad == 0)) [
    | inl z ↦
        let p = a.hash ((==_iff s.first_bad 0).0 z) in
        record { verdict = ground (arith, a.verdict, p); hash = λ e. ground (arith, a.verdict, p) }
    | inr z ↦ record { verdict = ground (arith, a.verdict); hash = λ e. absurd (ground arith) }
  ]

  pub visit_all-Agree :
      (s t : Scan) (rs : List Row)
      → Agree s t
      → Agree (visit_all (visit_incremental lib) s rs) (visit_all (visit lib) t rs)
  unfolding visit_all
  visit_all-Agree s t [] a = a
  visit_all-Agree s t (r ∷ rs) a =
      visit_all-Agree (visit_incremental lib s r) (visit lib t r) rs (visit-Agree s t r a)

  -- Over chained rows a scan stays good and ends in their last hash.
  pub visit_all-good :
      (s : Scan) (prev : Option Bytes) (rs : List Row)
      → s.first_bad ≡ 0
      → s.prev ≡ prev
      → IsChained lib prev rs
      → ((visit_all (visit lib) s rs).first_bad ≡ 0)
        × ((visit_all (visit lib) s rs).prev ≡ last_from prev rs)
  unfolding visit_all visit
  visit_all-good s prev [] z p c = (z, p)
  visit_all-good s prev (r ∷ rs) z p c =
      visit_all-good (visit lib s r) (some r.chain_hash) rs
        (rw (p, c.0, bytes_equal_refl r.chain_hash) (ground arith)) refl c.1

  pub incremental-last_id : (s : Scan) (r : Row) → (visit_incremental lib s r).last_id ≡ r.id
  unfolding visit_incremental
  incremental-last_id s r = refl

  stays_bad :
      (s : Scan) (rs : List Row)
      → 0 < s.first_bad
      → 0 < (visit_all (visit_incremental lib) s rs).first_bad
  unfolding visit_all visit_incremental
  stays_bad s [] h = h
  stays_bad s (r ∷ rs) h = stays_bad (visit_incremental lib s r) rs (ground arith)

  marks_good :
      (s : Scan) (r : Row)
      → (visit_incremental lib s r).first_bad ≡ 0
      → (visit_incremental lib s r).last_good ≡ r.id
  unfolding visit_incremental visit
  marks_good s r z = ground arith

  bad_or_zero :
      (s : Scan) (r : Row) (rs : List Row)
      → (visit_all (visit_incremental lib) (visit_incremental lib s r) rs).first_bad ≡ 0
      → (visit_incremental lib s r).first_bad ≡ 0
  bad_or_zero s r rs z = elim (dec_lt 0 (visit_incremental lib s r).first_bad) [
    | yes bad ↦ absurd (omega (arith, stays_bad (visit_incremental lib s r) rs bad, z))
    | no good ↦ omega arith
  ]

  good_here :
      (s : Scan) (r : Row) (rs : List Row)
      → (visit_all (visit_incremental lib) (visit_incremental lib s r) rs).first_bad ≡ 0
      → (visit_incremental lib s r).last_good ≡ r.id
  good_here s r rs z = marks_good s r (bad_or_zero s r rs z)

  -- A scan that stays good moves its last good id over every row.
  pub good_marks :
      (s : Scan) (rs : List Row)
      → (visit_all (visit_incremental lib) s rs).first_bad ≡ 0
      → IsAscending s.last_good rs
      → All (λ r. r.id ≤ (visit_all (visit_incremental lib) s rs).last_good) rs
        × (s.last_good ≤ (visit_all (visit_incremental lib) s rs).last_good)
  unfolding visit_all
  good_marks s [] z asc = (tt, omega arith)
  good_marks s (r ∷ rs) z asc =
      let here = good_here s r rs z in
      let (all, up) = good_marks (visit_incremental lib s r) rs z (rw here asc.1) in
      ((omega (arith, here), all), omega (arith, here, asc.0))

  row_good :
      (s : Scan) (r : Row)
      → s.first_bad ≡ 0
      → 0 < r.id
      → (visit_incremental lib s r).first_bad ≡ 0
      → bytes_equal (compute_row_hash lib s.prev r) r.chain_hash ≡ true
  unfolding visit_incremental visit
  row_good s r z h e = ground arith

  incremental-prev :
      (s : Scan) (r : Row)
      → (visit_incremental lib s r).first_bad ≡ 0
      → (visit_incremental lib s r).prev ≡ some r.chain_hash
  unfolding visit_incremental visit
  incremental-prev s r e = ground arith

  -- What a scan that stays good has established.
  pub good-IsChained :
      (s : Scan) (low : ℕ) (prev : Option Bytes) (rs : List Row)
      → s.first_bad ≡ 0
      → s.prev ≡ prev
      → IsAscending low rs
      → (visit_all (visit_incremental lib) s rs).first_bad ≡ 0
      → IsChained lib prev rs × ((visit_all (visit_incremental lib) s rs).prev ≡ last_from prev rs)
  unfolding visit_all
  good-IsChained s low prev [] z p asc e = (tt, p)
  good-IsChained s low prev (r ∷ rs) z p asc e =
      let here : (visit_incremental lib s r).first_bad ≡ 0 = bad_or_zero s r rs e in
      let (chained, last) =
        good-IsChained (visit_incremental lib s r) r.id (some r.chain_hash) rs here
          (incremental-prev s r here) asc.1 e in
      let same =
        bytes_equal→eq (compute_row_hash lib s.prev r) r.chain_hash
          (row_good s r z (omega (arith, asc.0)) here) in
      ((rw p at same, chained), last)
