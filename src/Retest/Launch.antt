-- ===== src/Retest/Launch.antt =====
-- The scan of a retest (backend/internal/retesting/service.go), which is a job of
-- backend/internal/scanorch/orchestrator.go.
use vaultscan.Prelude.{
  ℕ, Bool, true, List, ◌∷◌, ◌∙◌, ◌≡◌, ◌≢◌, inl, inr, refl, false, Option, none, some, [], ◌++◌, map,
  Bytes, bytes_equal, arith, Bool-cases, Option-cases, bytes_equal_iff,
}
use vaultscan.ScopeGuard.{Decision}
use vaultscan.Jobs.{Job, JobStore}
use vaultscan.Jobs.Setting.{Orchestrator, Moment, Outcome, submitted, failed, denied, denied_late}
use vaultscan.Jobs.Control.{
  get_job, approve_row, stop_row, claim_row, succeed_row, fail_row, report_row,
}
use vaultscan.Jobs.Stop.{Control, approves, stops, claims, succeeds, fails, control_row}
use vaultscan.Jobs.Stored.{job_by_key-append}
use vaultscan.Jobs.Submit.{submit, first_gates, existing_job, job_by_key}
use vaultscan.Jobs.Retry.{submit-keyed, submit-found}
use vaultscan.Retest.{RetestStore, Origin, launched, launch_input, job_of, set_retest, launch_scan}

job_of-some :
    (x : Outcome) (job : Job) → job_of x ≡ some job → (d : Option Decision) × (x ≡ submitted job d)
job_of-some (submitted j d) job h = (d, ground arith)
job_of-some (failed why) job h = absurd (cc)
job_of-some (denied d) job h = absurd (cc)
job_of-some denied_late job h = absurd (cc)

-- A launch whose Submit gives a job: its statement on the request may still fail.
launch-submitted :
    (o : Orchestrator) (m : Moment) (links : Bool) (id : ℕ) (text : Bytes) (actor : Option ℕ)
    (f : Origin) (s s' : RetestStore) (jobs jobs' : JobStore) (job : Job)
    → launch_scan o m links id text actor f s jobs ≡ (some job, (s', jobs'))
    → (d : Option Decision) × (submit o m (launch_input text actor f) jobs
        ≡ (submitted job d, jobs'))
unfolding launch_scan
launch-submitted o m links id text actor f s s' jobs jobs' job h =
    let (outcome, after) = submit o m (launch_input text actor f) jobs in
    elim (Bool-cases (bytes_equal f.endpoint [])) [
      | inl missing ↦ absurd (ground arith)
      | inr given ↦ elim (Option-cases (job_of outcome)) [
        | inl e ↦ absurd (ground arith)
        | inr (j, e) ↦ let (d, at) = job_of-some outcome j e in (d, ground arith)
      ]
    ]

-- What becomes of the stored jobs in between: approvals, stops, claims and ends, the reports of agents,
-- and new jobs.
pub data Change : Type 0 where
  controls : Control → Change
  reports : ℕ → ℕ → Bytes → Change
  inserts : Job → Change

unfoldable pub change_jobs : List Change → List Job → List Job
change_jobs [] js = js
change_jobs (controls c ∷ cs) js = change_jobs cs (map (control_row c) js)
change_jobs (reports agent id state ∷ cs) js = change_jobs cs (map (report_row agent id state) js)
change_jobs (inserts j ∷ cs) js = change_jobs cs (js ++ (j ∷ []))

-- Two states of one job.
abbrev IsSameJob : Job → Job → Type 0
IsSameJob j k =
    (k.id ≡ j.id) × (k.tenant_id ≡ j.tenant_id) × (k.idempotency_key ≡ j.idempotency_key)

control_row-IsSameJob : (c : Control) (j : Job) → IsSameJob j (control_row c j)
unfolding control_row approve_row stop_row claim_row succeed_row fail_row
control_row-IsSameJob (approves id actor) j = ground arith
control_row-IsSameJob (stops e) j = ground arith
control_row-IsSameJob (claims region from id) j = ground arith
control_row-IsSameJob (succeeds id) j = ground arith
control_row-IsSameJob (fails id reason) j = ground arith

report_row-IsSameJob :
    (agent id : ℕ) (state : Bytes) (j : Job) → IsSameJob j (report_row agent id state j)
unfolding report_row
report_row-IsSameJob agent id state j = ground arith

module _ (change : Job → Job) (same : (j : Job) → IsSameJob j (change j)) where
  job_by_key-map :
      (tenant : ℕ) (key : Bytes) (js : List Job) (job : Job)
      → job_by_key tenant key js ≡ some job
      → job_by_key tenant key (map change js) ≡ some (change job)
  unfolding job_by_key
  job_by_key-map tenant key [] job h = absurd (cc)
  job_by_key-map tenant key (j ∷ js) job h =
      ground (arith, same j, job_by_key-map tenant key js job)

-- The job with a key stays the job with that key.
job_by_key-change_jobs :
    (tenant : ℕ) (key : Bytes) (cs : List Change) (js : List Job) (job : Job)
    → job_by_key tenant key js ≡ some job
    → (k : Job) × (job_by_key tenant key (change_jobs cs js) ≡ some k) × (k.id ≡ job.id)
unfolding change_jobs
job_by_key-change_jobs tenant key [] js job h = (job, h, refl)
job_by_key-change_jobs tenant key (controls c ∷ cs) js job h =
    let kept = job_by_key-map (control_row c) (control_row-IsSameJob c) tenant key js job h in
    let (k, found, at) = job_by_key-change_jobs tenant key cs _ (control_row c job) kept in
    (k, found, at ∙ (control_row-IsSameJob c job).0)
job_by_key-change_jobs tenant key (reports agent id state ∷ cs) js job h =
    let row = report_row agent id state in
    let same = report_row-IsSameJob agent id state in
    let kept = job_by_key-map row same tenant key js job h in
    let (k, found, at) = job_by_key-change_jobs tenant key cs _ (row job) kept in
    (k, found, at ∙ (same job).0)
job_by_key-change_jobs tenant key (inserts j ∷ cs) js job h =
    job_by_key-change_jobs tenant key cs (js ++ (j ∷ [])) job
      (job_by_key-append tenant key job js (j ∷ []) h)

-- After a LaunchScan that gives a job under a fresh identifier, every later one for the same text of the
-- request gives that job, in the state that it has by then, leaves every row of Jobs as it is, and
-- links the request to the job and marks it as launched again: whatever became of the request in
-- between, and after any run of approvals, stops, claims, ends, reports and new jobs. The tenant is the
-- same, the finding has an endpoint, the gates of residency and billing pass, and the later UPDATE of
-- the request succeeds.
pub launch_again :
    (o o' : Orchestrator) (m m' : Moment) (links : Bool) (id : ℕ) (text : Bytes)
    (actor actor' : Option ℕ) (f f' : Origin) (s s' t : RetestStore) (jobs jobs' later : JobStore)
    (job : Job) (cs : List Change)
    → launch_scan o m links id text actor f s jobs ≡ (some job, (s', jobs'))
    → get_job m.new_id (jobs.jobs ++ m.raced) ≡ none
    → later.jobs ≡ change_jobs cs jobs'.jobs
    → f'.tenant_id ≡ f.tenant_id
    → f'.endpoint ≢ []
    → first_gates o' (launch_input text actor' f') ≡ none
    → (k : Job) × (k.id ≡ job.id)
      × (launch_scan o' m' true id text actor' f' t later ≡ (
        some k,
        (
          record t {
            retests =
                set_retest id
                  (λ r. record r { status = launched; scan_job_id = some job.id })
                  t.retests;
          },
          later,
        ),
      ))
unfolding launch_scan launch_input existing_job
launch_again o o' m m' links id text actor actor' f f' s s' t jobs jobs' later job cs h free rest_is
      same given gates =
    let (d, first) = launch-submitted o m links id text actor f s s' jobs jobs' job h in
    let i = launch_input text actor f in
    let i' = launch_input text actor' f' in
    let stored = submit-keyed o m i job d jobs jobs' refl free first in
    let (k, found, at) =
      job_by_key-change_jobs f.tenant_id i.idempotency_key cs jobs'.jobs job stored in
    let seen : existing_job i' later.jobs ≡ some k = rw (same, rest_is) found in
    let second = submit-found o' m' i' k later seen (λ e. cc) gates in
    let nonempty : bytes_equal f'.endpoint [] ≡ false =
      elim (Bool-cases (bytes_equal f'.endpoint [])) [
        | inl missing ↦ absurd (given ((bytes_equal_iff f'.endpoint []).0 missing))
        | inr present ↦ present
      ] in
    (k, at, rw (nonempty, second) rw (second, at) refl)
