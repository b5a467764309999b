-- ===== src/Retest/Moved.antt =====
-- A single transition (backend/internal/findings/service.go) and a single UPDATE of retest_requests
-- (backend/internal/retesting/service.go).
use mathlib.Core.Option
use vaultscan.Prelude.{
  ℕ, ◌≡◌, refl, true, false, Option, none, some, List, [], ◌∷◌, ◌==◌, arith, Bytes, ==_iff,
}
use vaultscan.Findings.Lifecycle.{Status, status_of, allowed}
use vaultscan.Findings.{Finding, Store, FindingsLib, completes, get, transition}
use vaultscan.Findings.Moves.{get-update, get-id}
use vaultscan.Retest.{pending, RetestRequest, find_retest, set_retest}

module _ (lib : FindingsLib) where
  pub transition-moved :
      (actor : Option ℕ) (id : ℕ) (to note : Bytes) (s : Store) (f : Finding) (t : Status)
      → get id s.findings ≡ some f
      → status_of (lib.to_lower to) ≡ some t
      → allowed f.status t ≡ true
      → get id (transition lib completes actor id to note s).1.findings
        ≡ some (record f { status = t })
  unfolding transition
  transition-moved actor id to note s f t found text listed =
      let same : (f.id == id) ≡ true = (==_iff f.id id).1 (get-id id s.findings f found) in
      let change : Finding → Finding = λ x. record x { status = t } in
      rw
        (
          found,
          text,
          listed,
          transition,
          get-update change (λ x. refl) id id s.findings,
          found,
          same,
        )
        refl

  pub transition-refused :
      (actor : Option ℕ) (id : ℕ) (to note : Bytes) (s : Store) (f : Finding) (t : Status)
      → get id s.findings ≡ some f
      → status_of (lib.to_lower to) ≡ some t
      → allowed f.status t ≡ false
      → (transition lib completes actor id to note s).1 ≡ s
  unfolding transition
  transition-refused actor id to note s f t found text barred =
      rw (found, text, barred, transition) refl

pub find-set_retest :
    (change : RetestRequest → RetestRequest)
    → ((r : RetestRequest) → (change r).id ≡ r.id)
    → (id : ℕ) (rs : List RetestRequest)
    → find_retest id (set_retest id change rs) ≡ Option.map change (find_retest id rs)
unfolding find_retest set_retest
find-set_retest change kept id [] = refl
find-set_retest change kept id (r ∷ rs) = ground (arith, kept r, find-set_retest change kept id rs)

pub rows_lem :
    (id finding_id : ℕ) (rs : List RetestRequest)
    → find_retest id
        (record { id = id; finding_id = finding_id; status = pending; scan_job_id = none } ∷ rs)
      ≡ some (record { id = id; finding_id = finding_id; status = pending; scan_job_id = none })
unfolding find_retest
rows_lem id finding_id rs = ground arith
