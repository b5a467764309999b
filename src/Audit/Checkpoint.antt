-- ===== src/Audit/Checkpoint.antt =====
-- `VerifyIncremental` (backend/internal/audit/ops.go) finds what `VerifyDeep` finds, and moves its
-- checkpoint only over rows that are intact.

use mathlib.Core.List.{append-nil}
use vaultscan.Prelude.{
  ℕ, ◌≤◌, ◌<◌, ◌≡◌, ◌⊎◌, inl, inr, refl, ◌∙◌, sym, ap, Option, none, some, List, [], ◌∷◌, ◌++◌,
  Bytes, length, arith, dec_lt, All, All-append,
}
use vaultscan.Audit.{AuditLib, Row, compute_row_hash, last_hash}
use vaultscan.Audit.Verify.{
  Scan, Checkpoint, visit, visit_incremental, visit_all, after, start, seed, report, advance,
  verify_incremental, verify_deep_chunk_size,
}
use vaultscan.Audit.Pages.{IsAscending, after-all, scan_pages-eq-visit_all, visit_all-append}
use vaultscan.Audit.Intact.{IsChained, deep_scan}
use vaultscan.Audit.Append.{last_from, last_hash-eq, IsChained-append, All-raise}
use vaultscan.Audit.Incremental.{
  Agree, incremental-last_id, good_marks, visit_all-good, visit_all-Agree, good-IsChained,
}

-- A checkpoint stands behind `done` and before `new`: the rows up to it are intact, and it holds
-- their last hash.
pub record IsCheckpoint (lib : AuditLib) (c : Checkpoint) (done new : List Row) : Type 0 where
  pub intact : IsChained lib none done
  pub last : seed c.last_verified_hash ≡ last_hash done
  pub behind : All (λ r. r.id ≤ c.last_verified_id) done
  pub ahead : IsAscending c.last_verified_id new

last_from-append :
    (prev : Option Bytes) (xs ys : List Row)
    → last_from prev (xs ++ ys) ≡ last_from (last_from prev xs) ys
last_from-append prev [] ys = refl
last_from-append prev (x ∷ xs) ys = last_from-append (some x.chain_hash) xs ys

after_done :
    (low : ℕ) (done new : List Row)
    → All (λ r. r.id ≤ low) done
    → IsAscending low new
    → after low (done ++ new) ≡ new
unfolding after
after_done low [] new all asc = after-all low new asc
after_done low (r ∷ done) new all asc = ground (arith, after_done low done new all.1 asc)

module _ (lib : AuditLib) where
  pub incremental_scan : Checkpoint → List Row → Scan
  incremental_scan c new =
      visit_all (visit_incremental lib) (start (seed c.last_verified_hash) c.last_verified_id) new

  verify_incremental-eq :
      (c : Checkpoint) (done new : List Row)
      → IsCheckpoint lib c done new
      → verify_incremental lib c c (done ++ new)
        ≡ some (
          incremental_scan c new,
          report (incremental_scan c new),
          advance c (incremental_scan c new) c,
        )
  unfolding verify_incremental incremental_scan
  verify_incremental-eq c done new ok =
      let here = after_done c.last_verified_id done new ok.behind ok.ahead in
      let scanned =
        scan_pages-eq-visit_all (visit_incremental lib) (incremental-last_id lib)
          verify_deep_chunk_size (done ++ new)
          (start (seed c.last_verified_hash) c.last_verified_id) (omega arith) (rw here ok.ahead) in
      rw scanned (rw here)

  -- The scan from the checkpoint gives the verdict of the scan from the first row.
  incremental-agrees :
      (c : Checkpoint) (done new : List Row)
      → IsCheckpoint lib c done new
      → Agree (incremental_scan c new) (deep_scan lib (done ++ new))
  unfolding incremental_scan deep_scan
  incremental-agrees c done new ok =
      let good = visit_all-good lib (start none 0) none done refl refl ok.intact in
      rw (visit_all-append (visit lib) (start none 0) done new) (
        visit_all-Agree lib (start (seed c.last_verified_hash) c.last_verified_id)
          (visit_all (visit lib) (start none 0) done) new
          (record { verdict = sym good.0; hash = λ _. ok.last ∙ last_hash-eq done ∙ sym good.1 }))

module _ (lib : AuditLib) (digest : (b : Bytes) → length (lib.sha256 b) ≡ 32) where
  last_from-size :
      (prev : Option Bytes) (r : Row) (rs : List Row)
      → IsChained lib prev (r ∷ rs)
      → (h : Bytes) × (last_from prev (r ∷ rs) ≡ some h) × (length h ≡ 32)
  unfolding compute_row_hash
  last_from-size prev r [] c = (r.chain_hash, refl, rw (← c.0) (digest _))
  last_from-size prev r (r' ∷ rs) c = last_from-size (some r.chain_hash) r' rs c.1

  seed_digest : (h : Bytes) → length h ≡ 32 → seed h ≡ some h
  seed_digest [] n = absurd (omega arith)
  seed_digest (b ∷ bs) n = refl

  advance-good :
      (c : Checkpoint) (s : Scan) (h : Bytes)
      → s.prev ≡ some h
      → s.first_bad ≡ 0
      → c.last_verified_id < s.last_good
      → ((advance c s c).last_verified_id ≡ s.last_good) × ((advance c s c).last_verified_hash ≡ h)
  unfolding advance
  advance-good c s h p z up = ground arith

  advance-bad : (c : Checkpoint) (s : Scan) → 0 < s.first_bad → advance c s c ≡ c
  unfolding advance
  advance-bad c s bad = ground arith

  advance-still : (c : Checkpoint) (s : Scan) → s.last_good ≤ c.last_verified_id → advance c s c ≡ c
  unfolding advance
  advance-still c s h = ground arith

  moved :
      (c : Checkpoint) (done new : List Row)
      → IsCheckpoint lib c done new
      → (incremental_scan lib c new).first_bad ≡ 0
      → IsCheckpoint lib (advance c (incremental_scan lib c new) c) (done ++ new) []
  unfolding incremental_scan visit_all
  moved c done [] ok z =
      rw
        (
          append-nil,
          advance-still c (start (seed c.last_verified_hash) c.last_verified_id) (omega arith),
        )
        (record { intact = ok.intact; last = ok.last; behind = ok.behind; ahead = tt })
  moved c done (r ∷ rs) ok z =
      let from = seed c.last_verified_hash in
      let first = start from c.last_verified_id in
      let scan = visit_all (visit_incremental lib) first (r ∷ rs) in
      let (chained, end) =
        good-IsChained lib first c.last_verified_id from (r ∷ rs) refl refl ok.ahead z in
      let (h, last, size) = last_from-size from r rs chained in
      let (all, _) = good_marks lib first (r ∷ rs) z ok.ahead in
      let (at_id, at_hash) =
        advance-good c scan h (end ∙ last) z (omega (arith, all.0, ok.ahead.0)) in
      let joint = ok.last ∙ last_hash-eq done in
      record {
        intact = IsChained-append lib none done (r ∷ rs) ok.intact (rw joint at chained);
        last =
            ap seed at_hash
            ∙ seed_digest h size
            ∙ sym last
            ∙ ap (λ p. last_from p (r ∷ rs)) joint
            ∙ sym (last_from-append none done (r ∷ rs))
            ∙ sym (last_hash-eq (done ++ (r ∷ rs)));
        behind = rw at_id (
            All-append (λ (x : Row). x.id ≤ scan.last_good) done (r ∷ rs)
              (All-raise done (omega (arith, all.0, ok.ahead.0)) ok.behind) all);
        ahead = tt;
      }

  -- From a checkpoint that stands behind intact rows, `VerifyIncremental` ends with the verdict of a
  -- full `VerifyDeep`. If the chain is intact its new checkpoint stands behind all rows, and if not
  -- the checkpoint stays. No other run moves the checkpoint meanwhile; sha256 is any function into
  -- 32 bytes.
  pub verify_incremental-verdict :
      (c : Checkpoint) (done new : List Row)
      → IsCheckpoint lib c done new
      → (s : Scan) × (c' : Checkpoint) × (verify_incremental lib c c (done ++ new)
          ≡ some (s, report s, c'))
        × (s.first_bad ≡ (deep_scan lib (done ++ new)).first_bad)
        × (((s.first_bad ≡ 0) × IsCheckpoint lib c' (done ++ new) [])
            ⊎ ((0 < s.first_bad) × (c' ≡ c)))
  verify_incremental-verdict c done new ok =
      let s = incremental_scan lib c new in
      (
        s,
        advance c s c,
        verify_incremental-eq lib c done new ok,
        (incremental-agrees lib c done new ok).verdict,
        elim (dec_lt 0 s.first_bad) [
          | yes bad ↦ inr (bad, advance-bad c s bad)
          | no good ↦ let z : s.first_bad ≡ 0 = omega arith in inl (z, moved c done new ok z)
        ],
      )
