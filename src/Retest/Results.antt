-- ===== src/Retest/Results.antt =====
-- What the result of a retest (backend/internal/retesting/service.go) does to its finding
-- (backend/internal/findings/service.go).

use vaultscan.Prelude.{
  ℕ, ◌≡◌, refl, Bool, true, false, none, some, ◌∷◌, ◌⊎◌, inl, inr, ◌∙◌, if◌then◌else◌, Bytes, codes,
  bytes_equal, ◌++◌,
}
use vaultscan.Findings.Lifecycle.{
  Status, open_, in_progress, remediated, retest_requested, retest_passed, retest_failed, triaged,
  assigned, risk_accepted, false_positive, closed, status_of, status_among, status_text, allowed,
}
use vaultscan.Findings.{Finding, Store, FindingsLib, completes, get, transition}
use vaultscan.Retest.{
  RetestStatus, pending, has_passed, has_failed, RetestRequest, RetestStore, RequestInput,
  ResultInput, may_retest, request, find_retest, set_retest, assign_row, assign_retest,
  record_result,
}
use vaultscan.Retest.Moved.{transition-moved, transition-refused, find-set_retest, rows_lem}

-- The state in which a decided retest leaves a finding.
abbrev pub decided : Bool → Status → Status
decided passes remediated = if passes then retest_passed else retest_failed
decided passes other = other

abbrev pub verdict : Bool → Bytes
verdict passes = if passes then codes "passed" else codes "failed"

abbrev pub verdict_status : Bool → RetestStatus
verdict_status passes = if passes then has_passed else has_failed

abbrev decided_to : Bool → Status
decided_to passes = if passes then retest_passed else retest_failed

may_retest-cases :
    (passes : Bool) (a : Status)
    → may_retest a ≡ true
    → (a ≡ remediated)
      ⊎ ((allowed a retest_requested ≡ false)
          × (allowed a (decided_to passes) ≡ false)
          × (decided passes a ≡ a))
unfolding allowed
may_retest-cases passes remediated e = inl refl
may_retest-cases true open_ e = inr (refl, refl, refl)
may_retest-cases false open_ e = inr (refl, refl, refl)
may_retest-cases true in_progress e = inr (refl, refl, refl)
may_retest-cases false in_progress e = inr (refl, refl, refl)
may_retest-cases passes triaged e = cc
may_retest-cases passes assigned e = cc
may_retest-cases passes risk_accepted e = cc
may_retest-cases passes false_positive e = cc
may_retest-cases passes retest_requested e = cc
may_retest-cases passes retest_passed e = cc
may_retest-cases passes retest_failed e = cc
may_retest-cases passes closed e = cc

module _ (lib : FindingsLib)
    (lower_requested : lib.to_lower (codes "retest_requested") ≡ codes "retest_requested")
    (lower_passed : lib.to_lower (codes "retest_passed") ≡ codes "retest_passed")
    (lower_failed : lib.to_lower (codes "retest_failed") ≡ codes "retest_failed") where
  requested-text : status_of (lib.to_lower (codes "retest_requested")) ≡ some retest_requested
  unfolding status_of status_among status_text
  requested-text = rw lower_requested refl

  passed-text : status_of (lib.to_lower (codes "retest_passed")) ≡ some retest_passed
  unfolding status_of status_among status_text
  passed-text = rw lower_passed refl

  failed-text : status_of (lib.to_lower (codes "retest_failed")) ≡ some retest_failed
  unfolding status_of status_among status_text
  failed-text = rw lower_failed refl

  abbrev queued : RequestInput → Store → Store
  queued i s =
      (transition lib completes i.requested_by i.finding_id (codes "retest_requested")
        (codes "retest queued: " ++ i.note) s).1

  abbrev concluded : Bool → ResultInput → ℕ → Store → Store
  concluded passes r id s =
      (transition lib completes r.decided_by id
        (if passes then codes "retest_passed" else codes "retest_failed") r.summary s).1

  decided-text :
      (passes : Bool)
      → status_of (lib.to_lower (if passes then codes "retest_passed" else codes "retest_failed"))
        ≡ some (decided_to passes)
  decided-text true = passed-text
  decided-text false = failed-text

  from_requested : (passes : Bool) → allowed retest_requested (decided_to passes) ≡ true
  unfolding allowed
  from_requested true = refl
  from_requested false = refl

  -- The two transitions together, from every state that a retest is requested in.
  both-decided :
      (passes : Bool) (i : RequestInput) (r : ResultInput) (s : Store) (f : Finding)
      → get i.finding_id s.findings ≡ some f
      → may_retest f.status ≡ true
      → get i.finding_id (concluded passes r i.finding_id (queued i s)).findings
        ≡ some (record f { status = decided passes f.status })
  unfolding allowed
  both-decided passes i r s f found may = elim (may_retest-cases passes f.status may) [
    | inl fixed ↦
        let first =
          transition-moved lib i.requested_by i.finding_id (codes "retest_requested")
            (codes "retest queued: " ++ i.note) s f retest_requested found requested-text
            (rw fixed refl) in
        let second =
          transition-moved lib r.decided_by i.finding_id
            (if passes then codes "retest_passed" else codes "retest_failed") r.summary (queued i s)
            (record f { status = retest_requested }) (decided_to passes) first (decided-text passes)
            (from_requested passes) in
        second ∙ rw fixed refl
    | inr (unlisted, barred, stays) ↦
        let first =
          transition-refused lib i.requested_by i.finding_id (codes "retest_requested")
            (codes "retest queued: " ++ i.note) s f retest_requested found requested-text
            unlisted in
        let second =
          transition-refused lib r.decided_by i.finding_id
            (if passes then codes "retest_passed" else codes "retest_failed") r.summary s f
            (decided_to passes) found (decided-text passes) barred in
        rw (first, second, found, stays) refl
  ]

  abbrev first_row : ℕ → ℕ → RetestRequest
  first_row id finding_id = record {
    id = id;
    finding_id = finding_id;
    status = pending;
    scan_job_id = none;
  }

  request-taken :
      (id : ℕ) (i : RequestInput) (s : RetestStore) (f : Finding)
      → get i.finding_id s.findings.findings ≡ some f
      → may_retest f.status ≡ true
      → (request lib completes id i s).1
        ≡ record { findings = queued i s.findings; retests = first_row id i.finding_id ∷ s.retests }
  unfolding request
  request-taken id i s f found may = rw (found, may, request) refl

  -- A result with a known request.
  record_result-taken :
      (passes : Bool) (r : ResultInput) (s : RetestStore) (row : RetestRequest)
      → r.outcome ≡ verdict passes
      → find_retest r.retest_request_id s.retests ≡ some row
      → (record_result lib completes r s).1 ≡ record {
        findings = concluded passes r row.finding_id s.findings;
        retests =
            set_retest r.retest_request_id
              (λ x. record x { status = verdict_status passes })
              s.retests;
      }
  unfolding record_result
  record_result-taken true r s row says known =
      let is_passed : bytes_equal r.outcome (codes "passed") ≡ true = rw says refl in
      rw (is_passed, known, record_result) rw is_passed refl
  record_result-taken false r s row says known =
      let not_passed : bytes_equal r.outcome (codes "passed") ≡ false = rw says refl in
      let is_failed : bytes_equal r.outcome (codes "failed") ≡ true = rw says refl in
      rw (not_passed, is_failed, known, record_result) rw not_passed refl

  -- A retest that is requested, assigned and decided, where the database completes each statement: a
  -- finding that was remediated ends as passed or failed, as the result says, and a finding that
  -- Request takes in any other state (open, in_progress) keeps its whole row; the row of the request
  -- ends with the result's status either way. The three texts of the states are their own lower case.
  pub retest_outcome :
      (passes : Bool) (id : ℕ) (i : RequestInput) (r : ResultInput) (s : RetestStore) (f : Finding)
      → get i.finding_id s.findings.findings ≡ some f
      → may_retest f.status ≡ true
      → r.retest_request_id ≡ id
      → r.outcome ≡ verdict passes
      → let s' =
          (record_result lib completes r (assign_retest id (request lib completes id i s).1)).1 in
        (get i.finding_id s'.findings.findings
          ≡ some (record f { status = decided passes f.status }))
        × ((row : RetestRequest) × (find_retest id s'.retests ≡ some row)
            × (row.status ≡ verdict_status passes))
  unfolding assign_retest
  retest_outcome passes id i r s f found may at says =
      let mark : RetestRequest → RetestRequest = λ x. record x { status = verdict_status passes } in
      let rows = first_row id i.finding_id ∷ s.retests in
      let held = rows_lem id i.finding_id s.retests in
      let assigned_rows = find-set_retest assign_row (λ x. refl) id rows in
      let known : find_retest r.retest_request_id (set_retest id assign_row rows)
          ≡ some (assign_row (first_row id i.finding_id)) =
        rw (at, assigned_rows, held) refl in
      let marked = find-set_retest mark (λ x. refl) id (set_retest id assign_row rows) in
      rw (request-taken id i s f found may) rw
        (record_result-taken passes r
          (record { findings = queued i s.findings; retests = set_retest id assign_row rows })
          (assign_row (first_row id i.finding_id)) says known)
        (
          both-decided passes i r s.findings f found may,
          (
            mark (assign_row (first_row id i.finding_id)),
            rw (at, marked, assigned_rows, held) refl,
            refl,
          ),
        )
