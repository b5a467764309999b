-- ===== src/Retest.antt =====
-- backend/internal/retesting/service.go: the retest of a finding, from its request over the scan that it
-- launches to its result.
pub mod Moved
pub mod Results
pub mod Launch
use vaultscan.Prelude.{
  ℕ, Bool, true, false, ◌||◌, ◌&&◌, not, Option, none, some, List, [], ◌∷◌, ◌++◌, ◌==◌,
  if◌then◌else◌, Bytes, codes, bytes_equal,
}
use vaultscan.Findings.Lifecycle.{Status, open_, in_progress, remediated}
use vaultscan.Findings.{Finding, Store, FindingsLib, Fate, get, transition}
use vaultscan.Jobs.{Job, JobStore, SubmitInput}
use vaultscan.Jobs.Setting.{Orchestrator, Moment, Outcome, submitted, failed, denied, denied_late}
use vaultscan.Jobs.Submit.{submit}

pub data RetestStatus : Type 0 where
  pending assigned launched has_passed has_failed : RetestStatus

-- A row of retest_requests; the finding exists, as its foreign key demands.
pub record RetestRequest : Type 0 where
  pub id : ℕ
  pub finding_id : ℕ
  pub status : RetestStatus
  pub scan_job_id : Option ℕ

pub record RetestStore : Type 0 where
  pub findings : Store
  pub retests : List RetestRequest

pub record RequestInput : Type 0 where
  pub finding_id : ℕ
  pub requested_by : Option ℕ
  pub note : Bytes

pub record ResultInput : Type 0 where
  pub retest_request_id : ℕ
  pub outcome : Bytes
  pub summary : Bytes
  pub decided_by : Option ℕ

abbrev pub may_retest : Status → Bool
may_retest remediated = true
may_retest open_ = true
may_retest in_progress = true
may_retest _ = false

-- `Request` with a new identifier; none is an error. What Transition returns is dropped.
unfoldable pub request :
    FindingsLib → Fate → ℕ → RequestInput → RetestStore → Option ℕ × RetestStore
request lib fate id i s = elim (get i.finding_id s.findings.findings) [
  | none ↦ (none, s)
  | some f ↦
      if may_retest f.status
      then (
        some id,
        record {
          findings =
              (transition lib fate i.requested_by i.finding_id (codes "retest_requested")
                (codes "retest queued: " ++ i.note) s.findings).1;
          retests =
              record { id = id; finding_id = i.finding_id; status = pending; scan_job_id = none }
              ∷ s.retests;
        },
      )
      else (none, s)
]

unfoldable pub find_retest : ℕ → List RetestRequest → Option RetestRequest
find_retest id [] = none
find_retest id (r ∷ rs) = let later = find_retest id rs in if r.id == id then some r else later

unfoldable pub set_retest :
    ℕ → (RetestRequest → RetestRequest) → List RetestRequest → List RetestRequest
set_retest id change [] = []
set_retest id change (r ∷ rs) =
    let others = set_retest id change rs in (if r.id == id then change r else r) ∷ others

abbrev pub on_assignment : RetestStatus → RetestStatus
on_assignment pending = assigned
on_assignment s = s

abbrev pub assign_row : RetestRequest → RetestRequest
assign_row r = record r { status = on_assignment r.status }

-- `Assign` but for the row of retest_assignments.
unfoldable pub assign_retest : ℕ → RetestStore → RetestStore
assign_retest id s = record s { retests = set_retest id assign_row s.retests }

-- `RecordResult`: whether an error comes back, which it does for an unknown request by its foreign
-- key. What Transition returns is dropped.
unfoldable pub record_result : FindingsLib → Fate → ResultInput → RetestStore → Bool × RetestStore
record_result lib fate i s =
    let passes = bytes_equal i.outcome (codes "passed") in
    if not passes && not (bytes_equal i.outcome (codes "failed"))
    then (true, s)
    else elim (find_retest i.retest_request_id s.retests) [
      | none ↦ (true, s)
      | some r ↦ (
        false,
        record {
          findings =
              (transition lib fate i.decided_by r.finding_id
                (if passes then codes "retest_passed" else codes "retest_failed") i.summary
                s.findings).1;
          retests =
              set_retest i.retest_request_id
                (λ x. record x { status = if passes then has_passed else has_failed }) s.retests;
        },
      )
    ]

abbrev pub one_of : Bytes → List Bytes → Bool
one_of s [] = false
one_of s (x ∷ xs) = bytes_equal s x || one_of s xs

-- The code and the plane.
unfoldable pub profile_for_scanner : Bytes → Bytes × Bytes
profile_for_scanner s =
    if one_of s (codes "zap" ∷ codes "nuclei" ∷ codes "katana" ∷ codes "ffuf" ∷ [])
    then (codes "external_web_va", codes "external")
    else if one_of s (codes "testssl" ∷ codes "sslyze" ∷ [])
    then (codes "external_tls_review", codes "external")
    else if one_of s (codes "nmap" ∷ codes "openvas" ∷ codes "naabu" ∷ [])
    then (codes "external_standard_va", codes "external")
    else if one_of s (codes "bloodhound" ∷ codes "netexec" ∷ [])
    then (codes "internal_ad_review", codes "internal")
    else if one_of s (codes "lynis" ∷ [])
    then (codes "internal_linux_hardening", codes "internal")
    else if one_of s (codes "trivy" ∷ codes "grype" ∷ [])
    then (codes "internal_container_review", codes "internal")
    else if one_of s (codes "kube-bench" ∷ codes "kube-hunter" ∷ [])
    then (codes "internal_k8s_review", codes "internal")
    else if one_of s (codes "prowler" ∷ codes "scoutsuite" ∷ [])
    then (codes "cloud_posture", codes "external")
    else (codes "external_standard_va", codes "external")

-- The columns of the finding that `LaunchScan` reads.
pub record Origin : Type 0 where
  pub tenant_id : ℕ
  pub partner_id : ℕ
  pub engagement_id : ℕ
  pub scanner : Bytes
  pub endpoint : Bytes

-- The submission, under the text of the identifier of the request.
unfoldable pub launch_input : Bytes → Option ℕ → Origin → SubmitInput
launch_input retest actor f = record {
  partner_id = f.partner_id;
  tenant_id = f.tenant_id;
  engagement_id = f.engagement_id;
  profile_code = (profile_for_scanner f.scanner).0;
  plane = (profile_for_scanner f.scanner).1;
  region = codes "ae";
  agent_id = none;
  targets = f.endpoint ∷ [];
  requested_by = actor;
  intensity = [];
  idempotency_key = codes "retest:" ++ retest;
}

abbrev pub job_of : Outcome → Option Job
job_of (submitted job d) = some job
job_of (failed why) = none
job_of (denied d) = none
job_of denied_late = none

-- `LaunchScan` on a request whose finding is found, and whether its UPDATE of the request succeeds: the
-- job, and the rows of both services.
unfoldable pub launch_scan :
    Orchestrator
    → Moment
    → Bool
    → ℕ
    → Bytes
    → Option ℕ
    → Origin
    → RetestStore
    → JobStore
    → Option Job × (RetestStore × JobStore)
launch_scan o m links id text actor f s jobs =
    let (outcome, jobs') = submit o m (launch_input text actor f) jobs in
    if bytes_equal f.endpoint [] then (none, (s, jobs)) else elim (job_of outcome) [
      | none ↦ (none, (s, jobs'))
      | some job ↦
          if links
          then (
            some job,
            (
              record s {
                retests =
                    set_retest id (λ r. record r { status = launched; scan_job_id = some job.id })
                      s.retests;
              },
              jobs',
            ),
          )
          else (none, (s, jobs'))
    ]
