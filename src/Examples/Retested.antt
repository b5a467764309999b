-- ===== src/Examples/Retested.antt =====
-- Tests of Retest and its children.
use vaultscan.Prelude.{◌≡◌, refl, true, some, [], codes}
use vaultscan.Findings.Lifecycle.{Status, open_, remediated, retest_passed}
use vaultscan.Findings.{completes, get}
use vaultscan.Retest.{
  has_passed, RetestRequest, RetestStore, RequestInput, ResultInput, find_retest, request,
  assign_retest, record_result,
}
use vaultscan.Retest.Results.{retest_outcome}
use vaultscan.Examples.Reports.{toy, finding, store}

abbrev asked : RequestInput
asked = record { finding_id = 1; requested_by = some 8; note = codes "patched" }

abbrev answer : ResultInput
answer = record {
  retest_request_id = 40;
  outcome = codes "passed";
  summary = [];
  decided_by = some 9;
}

abbrev before : Status → RetestStore
before status = record { findings = store status; retests = [] }

abbrev after : Status → RetestStore
after status =
    (record_result toy completes answer
      (assign_retest 40 (request toy completes 40 asked (before status)).1)).1

stored : (status : Status) → get 1 (store status).findings ≡ some (finding status)
unfolding get
stored status = refl

retest_outcome_example :
    (get 1 (after remediated).findings.findings ≡ some (finding retest_passed))
    × ((row : RetestRequest) × (find_retest 40 (after remediated).retests ≡ some row)
        × (row.status ≡ has_passed))
retest_outcome_example =
    retest_outcome toy refl refl refl true 40 asked answer (before remediated) (finding remediated)
      (stored remediated) refl refl refl

-- The result is lost on a finding that is open.
open_stays :
    (get 1 (after open_).findings.findings ≡ some (finding open_))
    × ((row : RetestRequest) × (find_retest 40 (after open_).retests ≡ some row)
        × (row.status ≡ has_passed))
open_stays =
    retest_outcome toy refl refl refl true 40 asked answer (before open_) (finding open_)
      (stored open_) refl refl refl
