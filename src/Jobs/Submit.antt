-- ===== src/Jobs/Submit.antt =====
-- `Submit` of backend/internal/scanorch/orchestrator.go, which asks the scope guard about every target.
use vaultscan.Prelude.{
  ℕ, ◌+◌, Bool, true, false, ◌&&◌, ◌||◌, not, Option, none, some, List, [], ◌∷◌, ◌++◌, ltb, leb,
  ◌==◌, if◌then◌else◌, Bytes, codes, bytes_equal,
}
use vaultscan.ScopeGuard.{
  Inputs, Code, approved, requires_manual_approval, Decision, Db, LogRow, evaluate,
}
use vaultscan.Jobs.{
  pending, Job, Task, Queued, JobStore, ScanProfile, SubmitInput, SubmitError, no_targets,
  residency_violation, quota_exceeded, unknown_profile, wrong_plane, guard_failed, no_scanner_node,
  not_signed, unpinned_image, not_pending,
}
use vaultscan.Jobs.Targets.{detect_target_type}
use vaultscan.Jobs.Images.{image_ref_for}
use vaultscan.Jobs.Nodes.{pick_scanner_node}
use vaultscan.Jobs.Setting.{
  Manifest, Orchestrator, Moment, Outcome, failed, denied, denied_late, submitted,
}
use vaultscan.Jobs.Control.{approve}

-- Residency and billing, the gates before the first query.
unfoldable pub first_gates : Orchestrator → SubmitInput → Option SubmitError
first_gates o i =
    if bytes_equal o.pod_region []
      || elim o.residency [ none ↦ true | some ok ↦ ok i.tenant_id o.pod_region ]
    then (if elim o.billing [ none ↦ true | some ok ↦ ok i.partner_id ]
        then none
        else some quota_exceeded)
    else some residency_violation

-- WHERE tenant_id=$1 AND idempotency_key=$2, and the row with an identifier.
unfoldable pub job_by_key : ℕ → Bytes → List Job → Option Job
job_by_key tenant key [] = none
job_by_key tenant key (j ∷ js) =
    if (j.tenant_id == tenant) && bytes_equal j.idempotency_key key
    then some j
    else job_by_key tenant key js

unfoldable pub existing_job : SubmitInput → List Job → Option Job
existing_job i js =
    if bytes_equal i.idempotency_key [] then none else job_by_key i.tenant_id i.idempotency_key js

-- An hour in nanoseconds: created_at > now() - INTERVAL '1 hour'
unfoldable pub recent_jobs : ℕ → ℕ → List Job → ℕ
recent_jobs tenant now [] = 0
recent_jobs tenant now (j ∷ js) =
    let others = recent_jobs tenant now js in
    if (j.tenant_id == tenant) && ltb now (j.created_at + 3_600_000_000_000)
    then others + 1
    else others

unfoldable pub guard_inputs : SubmitInput → ℕ → Bytes → Inputs
guard_inputs i recent t = record {
  tenant_id = i.tenant_id;
  partner_id = i.partner_id;
  engagement_id = i.engagement_id;
  scan_profile = i.profile_code;
  target_type = detect_target_type t;
  target_value = t;
  plane = i.plane;
  agent_id = i.agent_id;
  requested_by = i.requested_by;
  now = none;
  recent_jobs_last_hour = recent;
  intensity = i.intensity;
}

-- How the loop over the targets ends.
pub data Checked : Type 0 where
  guard_error : Checked
  blocked : Decision → Checked
  all_passed : Option Decision → Checked

abbrev pub passes : Code → Bool
passes approved = true
passes requires_manual_approval = true
passes _ = false

-- What the guard is asked about the target at a position, with the jobs of the last hour counted anew.
unfoldable pub inputs_at : Moment → SubmitInput → List Job → ℕ → Bytes → Inputs
inputs_at m i jobs k t =
    guard_inputs i (recent_jobs i.tenant_id (m.checks k).now (jobs ++ (m.checks k).others)) t

-- The loop over the targets from a position on, which writes down a decision for each.
unfoldable pub check_targets :
    Orchestrator
    → Moment
    → SubmitInput
    → List Job
    → ℕ
    → List Bytes
    → Option Decision
    → List LogRow
    → Checked × List LogRow
check_targets o m i jobs k [] last rows = (all_passed last, rows)
check_targets o m i jobs k (t ∷ ts) last rows =
    let (answer, rows') =
      evaluate o.lib (m.checks k).db (m.checks k).now (inputs_at m i jobs k t) rows in
    elim answer [
      | none ↦ (guard_error, rows')
      | some d ↦ elim (passes d.code) [
        | false ↦ (blocked d, rows')
        | true ↦ check_targets o m i jobs (k + 1) ts (some d) rows'
      ]
    ]

abbrev pub is_manual : Option Decision → Bool
is_manual none = false
is_manual (some d) = elim d.code [ requires_manual_approval ↦ true | _ ↦ false ]

-- `CanonicalManifest` of the job that is built.
unfoldable pub manifest_of : Job → List Bytes → Manifest
manifest_of j tools = record {
  agent_id = j.agent_id;
  engagement_id = j.engagement_id;
  job_id = j.id;
  plane = j.plane;
  profile = j.profile_code;
  targets = j.targets;
  tenant_id = j.tenant_id;
  tools = tools;
}

-- The job record but for its node and signature.
unfoldable pub new_job : Orchestrator → Moment → SubmitInput → ScanProfile → Option Decision → Job
new_job o m i p last = record {
  id = m.new_id;
  partner_id = i.partner_id;
  tenant_id = i.tenant_id;
  engagement_id = i.engagement_id;
  profile_id = p.id;
  profile_code = p.code;
  plane = i.plane;
  region = i.region;
  agent_id = i.agent_id;
  scanner_node_id = none;
  status = pending;
  targets = i.targets;
  requires_approval = p.requires_approval || is_manual last;
  requested_by = i.requested_by;
  approved_by = none;
  job_signature = [];
  signing_key_id = o.signing.key_id;
  idempotency_key = i.idempotency_key;
  cancellation_reason = [];
  created_at = m.later;
}

-- The condition of the INSERT, which asks again for an active engagement and a document.
unfoldable pub may_insert : Db → ℕ → ℕ → Bool
may_insert db now engagement = elim (db.engagement engagement) [
  | none ↦ false
  | some e ↦
      bytes_equal e.status (codes "active")
      && (leb e.starts_at now && leb now e.ends_at)
      && ltb 0 (db.document_count engagement)
]

-- The tasks up to the first tool with no image, and whether there was none.
unfoldable pub add_tasks : Orchestrator → ℕ → List Bytes → Bool × List Task
add_tasks o job [] = (true, [])
add_tasks o job (tool ∷ tools) = elim (image_ref_for o.digests o.fallback_registry tool) [
  | none ↦ (false, [])
  | some ref ↦
      let (all, rest) = add_tasks o job tools in
      (all, record { scan_job_id = job; tool = tool; image_ref = ref } ∷ rest)
]

unfoldable pub enqueue : Job → List Queued
enqueue j =
    if bytes_equal j.plane (codes "internal")
    then elim j.agent_id [
      | none ↦ []
      | some agent ↦ record { agent_id = agent; scan_job_id = j.id } ∷ []
    ]
    else []

-- From the INSERT to the end, for a job that is signed.
unfoldable pub insert_job :
    Orchestrator
    → Moment
    → SubmitInput
    → List Bytes
    → Option Decision
    → Job
    → JobStore
    → Outcome × JobStore
insert_job o m i tools last j s =
    let (all, tasks) = add_tasks o j.id tools in
    let tried = record s { jobs = s.jobs ++ (j ∷ []); tasks = s.tasks ++ tasks } in
    let stored = record tried { queue = s.queue ++ enqueue j } in
    if not (may_insert m.db_later m.later i.engagement_id)
    then (denied_late, s)
    else elim (existing_job i s.jobs) [
      | some other ↦ (submitted other none, s)
      | none ↦
          if not all
          then (failed unpinned_image, tried)
          else if j.requires_approval
          then (submitted j last, stored)
          else let (found, after) = approve j.id i.requested_by stored in
            elim found [
              | none ↦ (failed not_pending, after)
              | some job ↦ (submitted job last, after)
            ]
    ]

-- The node for an external job, none if there is none to take.
unfoldable pub node_for : Orchestrator → SubmitInput → Option ℕ
node_for o i =
    if bytes_equal i.plane (codes "external") then (pick_scanner_node o.fleet i.region).0 else none

abbrev pub lacks_node : SubmitInput → Option ℕ → Bool
lacks_node i none = bytes_equal i.plane (codes "external")
lacks_node i (some id) = false

unfoldable pub signed_job :
    Orchestrator → Moment → SubmitInput → ScanProfile → Option Decision → Bytes → Job
signed_job o m i p last sig = record (new_job o m i p last) {
  scanner_node_id = node_for o i;
  job_signature = sig;
}

-- Up to the signature, over the fields that are signed.
unfoldable pub sign_job :
    Orchestrator
    → Moment
    → SubmitInput
    → ScanProfile
    → Option Decision
    → JobStore
    → Outcome × JobStore
sign_job o m i p last s =
    if lacks_node i (node_for o i)
    then (failed no_scanner_node, s)
    else elim (o.signing.sign (o.signing.marshal (manifest_of (new_job o m i p last) p.tools))) [
      | none ↦ (failed not_signed, s)
      | some sig ↦
          insert_job o m i p.tools last (signed_job o m i p last sig)
            (record s { jobs = s.jobs ++ m.raced })
    ]

-- The scope guard and what follows.
unfoldable pub guard_and_store :
    Orchestrator → Moment → SubmitInput → ScanProfile → JobStore → Outcome × JobStore
guard_and_store o m i p s =
    let (checked, rows) = check_targets o m i s.jobs 0 i.targets none s.decisions in
    let s' = record s { decisions = rows } in
    elim checked [
      | guard_error ↦ (failed guard_failed, s')
      | blocked d ↦ (denied d, s')
      | all_passed last ↦ sign_job o m i p last s'
    ]

unfoldable pub submit : Orchestrator → Moment → SubmitInput → JobStore → Outcome × JobStore
submit o m i s = elim i.targets [
  | [] ↦ (failed no_targets, s)
  | _ ↦ elim (first_gates o i) [
    | some why ↦ (failed why, s)
    | none ↦ elim (existing_job i s.jobs) [
      | some job ↦ (submitted job none, s)
      | none ↦ elim (o.profile_by_code i.profile_code) [
        | none ↦ (failed unknown_profile, s)
        | some p ↦
            if bytes_equal p.plane i.plane
            then guard_and_store o m i p s
            else (failed wrong_plane, s)
      ]
    ]
  ]
]
