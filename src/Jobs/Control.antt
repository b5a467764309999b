-- ===== src/Jobs/Control.antt =====
-- What changes the state of a stored job: `Approve` and `EmergencyStop` of
-- backend/internal/scanorch/orchestrator.go, `claimNext` and the ends of `execute` of
-- backend/internal/scanner/worker.go, and the report of an agent to backend/cmd/agent-gateway/main.go.
use vaultscan.Prelude.{
  ℕ, ◌+◌, Bool, true, false, ◌&&◌, ◌||◌, Option, none, some, List, [], ◌∷◌, map, ◌==◌,
  if◌then◌else◌, Bytes, codes, bytes_equal,
}
use vaultscan.Jobs.{
  JobStatus, pending, approved, dispatched, running, succeeded, failed, stopped, reported, Job,
  JobStore,
}

-- `Get`
unfoldable pub get_job : ℕ → List Job → Option Job
get_job id [] = none
get_job id (j ∷ js) = let later = get_job id js in if j.id == id then some j else later

abbrev pub is_pending : JobStatus → Bool
is_pending pending = true
is_pending _ = false

-- COALESCE(approved_by, $2)
abbrev pub coalesce {ℓ} : {A : Type ℓ} → Option A → Option A → Option A
coalesce none b = b
coalesce (some a) b = some a

-- The UPDATE of `Approve` on a row.
unfoldable pub approve_row : ℕ → Option ℕ → Job → Job
approve_row id actor j =
    if (j.id == id) && is_pending j.status
    then record j { status = dispatched; approved_by = coalesce j.approved_by actor }
    else j

unfoldable pub has_pending : ℕ → List Job → Bool
has_pending id [] = false
has_pending id (j ∷ js) = ((j.id == id) && is_pending j.status) || has_pending id js

-- `Approve`; none is its error on a job that is not pending.
unfoldable pub approve : ℕ → Option ℕ → JobStore → Option Job × JobStore
approve id actor s =
    let jobs' = map (approve_row id actor) s.jobs in
    if has_pending id s.jobs then (get_job id jobs', record s { jobs = jobs' }) else (none, s)

-- `EmergencyScope`
pub record EmergencyScope : Type 0 where
  pub job_id : Option ℕ
  pub tenant_id : Option ℕ
  pub agent_id : Option ℕ
  pub reason : Bytes

abbrev pub is_live : JobStatus → Bool
is_live pending = true
is_live approved = true
is_live dispatched = true
is_live running = true
is_live _ = false

-- A condition that is only appended for a pointer that is not nil.
abbrev pub agrees : Option ℕ → Option ℕ → Bool
agrees none value = true
agrees (some wanted) none = false
agrees (some wanted) (some value) = value == wanted

unfoldable pub in_scope : EmergencyScope → Job → Bool
in_scope e j =
    agrees e.job_id (some j.id)
    && agrees e.tenant_id (some j.tenant_id)
    && agrees e.agent_id j.agent_id

unfoldable pub stop_row : EmergencyScope → Job → Job
stop_row e j =
    let reason = if bytes_equal e.reason [] then codes "emergency_stop" else e.reason in
    if is_live j.status && in_scope e j
    then record j { status = stopped; cancellation_reason = reason }
    else j

unfoldable pub count_stopped : EmergencyScope → List Job → ℕ
count_stopped e [] = 0
count_stopped e (j ∷ js) =
    let others = count_stopped e js in
    if is_live j.status && in_scope e j then others + 1 else others

-- `EmergencyStop`, all of whose statements succeed: the number of jobs, and the store.
unfoldable pub emergency_stop : EmergencyScope → JobStore → ℕ × JobStore
emergency_stop e s = (count_stopped e s.jobs, record s { jobs = map (stop_row e) s.jobs })

abbrev pub is_dispatched : JobStatus → Bool
is_dispatched dispatched = true
is_dispatched _ = false

-- The rows that `claimNext` of a worker in a region, at a node if it has one, may take.
unfoldable pub claimable : Bytes → Option ℕ → Job → Bool
claimable region node j =
    bytes_equal j.plane (codes "external")
    && is_dispatched j.status
    && (bytes_equal j.region region || bytes_equal j.region [])
    && elim node [ none ↦ true | some n ↦ agrees j.scanner_node_id (some n) ]

-- The rest of `claimNext`, on the row that is oldest among those that no other worker locks.
unfoldable pub claim_row : Bytes → Option ℕ → ℕ → Job → Job
claim_row region node id j =
    if (j.id == id) && claimable region node j then record j { status = running } else j

-- The UPDATE at the end of `execute`, and that of `failJob`, which stores the reason in base64.
unfoldable pub succeed_row : ℕ → Job → Job
succeed_row id j = if j.id == id then record j { status = succeeded } else j

unfoldable pub fail_row : ℕ → Bytes → Job → Job
fail_row id reason j =
    if j.id == id then record j { status = failed; cancellation_reason = reason } else j

-- The status that a text of the column stands for.
unfoldable pub status_of : Bytes → JobStatus
status_of state =
    if bytes_equal state (codes "pending")
    then pending
    else if bytes_equal state (codes "approved")
    then approved
    else if bytes_equal state (codes "dispatched")
    then dispatched
    else if bytes_equal state (codes "running")
    then running
    else if bytes_equal state (codes "succeeded")
    then succeeded
    else if bytes_equal state (codes "failed")
    then failed
    else if bytes_equal state (codes "stopped")
    then stopped
    else reported state

-- The handler of an agent's report of a job's state.
unfoldable pub report_row : ℕ → ℕ → Bytes → Job → Job
report_row agent id state j =
    if (j.id == id) && elim j.agent_id [ none ↦ false | some a ↦ a == agent ]
    then record j { status = status_of state }
    else j
