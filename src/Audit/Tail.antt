-- ===== src/Audit/Tail.antt =====
-- `VerifyTail` (backend/internal/audit/audit.go) on the rows that `Record` wrote.
use vaultscan.Prelude.{
  ℕ, zero, suc, ◌-◌, ◌≡◌, inl, inr, refl, ap, ◌∙◌, Option, none, some, List, [], ◌∷◌, ◌++◌, Bytes,
  length, drop, ltb, ◌==◌, if◌then◌else◌, bytes_equal_refl, Bool-cases,
}
use vaultscan.Audit.{AuditLib, Row, new_row}
use vaultscan.Audit.Verify.{tail_scan, anchored_scan, last_rows, verify_tail}
use vaultscan.Audit.Intact.{IsChained}
use vaultscan.Audit.Append.{
  Call, CallsAscending, run_call, run_calls, run_call-cases, run_calls-IsChained, last_from,
  last_hash-eq, verify-run_calls,
}

-- Each row stores the hash of the row before it as its chain_prev.
abbrev pub IsLinked : Option Bytes → List Row → Type 0
IsLinked prev [] = Unit
IsLinked prev (r ∷ rs) = (r.chain_prev ≡ prev) × IsLinked (some r.chain_hash) rs

IsLinked-append :
    (prev : Option Bytes) (xs ys : List Row)
    → IsLinked prev xs
    → IsLinked (last_from prev xs) ys
    → IsLinked prev (xs ++ ys)
IsLinked-append prev [] ys hx hy = hy
IsLinked-append prev (x ∷ xs) ys hx hy = (hx.0, IsLinked-append (some x.chain_hash) xs ys hx.1 hy)

module _ (lib : AuditLib) where
  run_call-IsLinked :
      (c : Call) (rows : List Row) → IsLinked none rows → IsLinked none (run_call lib c rows)
  unfolding new_row
  run_call-IsLinked c rows linked = elim (run_call-cases lib c rows) [
    | inl e ↦ rw e linked
    | inr (text, e) ↦ rw e (IsLinked-append none rows _ linked (last_hash-eq rows, tt))
  ]

  run_calls-IsLinked :
      (cs : List Call) (rows : List Row)
      → IsLinked none rows
      → IsLinked none (run_calls lib rows cs)
  unfolding run_calls
  run_calls-IsLinked [] rows linked = linked
  run_calls-IsLinked (c ∷ cs) rows linked =
      run_calls-IsLinked cs (run_call lib c rows) (run_call-IsLinked c rows linked)

  tail_scan-zero :
      (prev : Option Bytes) (rows : List Row)
      → IsChained lib prev rows
      → tail_scan lib prev rows ≡ 0
  unfolding tail_scan
  tail_scan-zero prev [] chained = refl
  tail_scan-zero prev (r ∷ rs) chained =
      rw (chained.0, bytes_equal_refl r.chain_hash)
        (tail_scan-zero (some r.chain_hash) rs chained.1)

  anchored_scan-zero :
      (prev : Option Bytes) (n : ℕ) (rows : List Row)
      → IsChained lib prev rows
      → IsLinked prev rows
      → anchored_scan lib (drop n rows) ≡ 0
  unfolding anchored_scan
  anchored_scan-zero prev zero [] chained linked = refl
  anchored_scan-zero prev zero (r ∷ rs) chained linked =
      ap (λ p. tail_scan lib p (r ∷ rs)) linked.0 ∙ tail_scan-zero prev (r ∷ rs) chained
  anchored_scan-zero prev (suc n) [] chained linked = refl
  anchored_scan-zero prev (suc n) (r ∷ rs) chained linked =
      anchored_scan-zero (some r.chain_hash) n rs chained.1 linked.1

module _ (lib : AuditLib) (host_text : (ip : Bytes) → lib.host ip ≡ ip) where
  -- On a table that only `Record` wrote, failing calls among the others, `VerifyTail` finds nothing
  -- wrong, for a tail of every size, if the ids grow and an address is read back as it was written.
  pub verify_tail-run_calls :
      (cs : List Call) (tail : ℕ)
      → CallsAscending 0 cs
      → verify_tail lib tail (run_calls lib [] cs) ≡ some 0
  unfolding verify_tail last_rows
  verify_tail-run_calls cs tail asc =
      let rows = run_calls lib [] cs in
      let n = if tail == 0 then 256 else tail in
      let whole = verify-run_calls lib host_text cs asc in
      let part =
        anchored_scan-zero lib none (length rows - n) rows
          (run_calls-IsChained lib host_text cs [] tt) (run_calls-IsLinked lib cs [] tt) in
      elim (Bool-cases (ltb (length rows) n)) [
        | inl short ↦ rw (short, verify_tail) whole
        | inr long ↦ rw (long, verify_tail) (ap some part)
      ]
