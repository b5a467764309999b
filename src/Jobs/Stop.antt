-- ===== src/Jobs/Stop.antt =====
-- What an emergency stop (backend/internal/scanorch/orchestrator.go) ends, and that approvals, claims and
-- the ends of running jobs (backend/internal/scanner/worker.go) do not undo it.
use vaultscan.Prelude.{ℕ, ◌≡◌, true, false, Option, List, [], ◌∷◌, map, Bytes, arith, All}
use vaultscan.Jobs.{Job, JobStore}
use vaultscan.Jobs.Control.{
  approve_row, EmergencyScope, is_live, in_scope, stop_row, emergency_stop, claimable, claim_row,
  succeed_row, fail_row,
}

-- What the orchestrator and its workers do to the stored jobs.
pub data Control : Type 0 where
  approves : ℕ → Option ℕ → Control
  stops : EmergencyScope → Control
  claims : Bytes → Option ℕ → ℕ → Control
  succeeds : ℕ → Control
  fails : ℕ → Bytes → Control

unfoldable pub control_row : Control → Job → Job
control_row (approves id actor) = approve_row id actor
control_row (stops e) = stop_row e
control_row (claims region node id) = claim_row region node id
control_row (succeeds id) = succeed_row id
control_row (fails id reason) = fail_row id reason

unfoldable pub control : List Control → List Job → List Job
control [] js = js
control (c ∷ cs) js = control cs (map (control_row c) js)

-- The job is not in the scope, or no longer live.
unfoldable pub IsEnded : EmergencyScope → Job → Type 0
IsEnded e j = in_scope e j ≡ true → is_live j.status ≡ false

stop_row-IsEnded : (e : EmergencyScope) (j : Job) → IsEnded e (stop_row e j)
unfolding IsEnded stop_row in_scope
stop_row-IsEnded e j h = ground arith

control_row-IsEnded :
    (e : EmergencyScope) (c : Control) (j : Job) → IsEnded e j → IsEnded e (control_row c j)
unfolding IsEnded control_row approve_row stop_row claim_row claimable succeed_row fail_row in_scope
control_row-IsEnded e (approves id actor) j h x = ground arith
control_row-IsEnded e (stops f) j h x = ground arith
control_row-IsEnded e (claims region at id) j h x = ground arith
control_row-IsEnded e (succeeds id) j h x = ground arith
control_row-IsEnded e (fails id reason) j h x = ground arith

map-IsEnded :
    (e : EmergencyScope) (f : Job → Job) (js : List Job)
    → ((j : Job) → IsEnded e j → IsEnded e (f j))
    → All (IsEnded e) js
    → All (IsEnded e) (map f js)
map-IsEnded e f [] keeps all = tt
map-IsEnded e f (j ∷ js) keeps (here, there) = (keeps j here, map-IsEnded e f js keeps there)

control-IsEnded :
    (e : EmergencyScope) (cs : List Control) (js : List Job)
    → All (IsEnded e) js
    → All (IsEnded e) (control cs js)
unfolding control
control-IsEnded e [] js all = all
control-IsEnded e (c ∷ cs) js all =
    control-IsEnded e cs (map (control_row c) js)
      (map-IsEnded e (control_row c) js (control_row-IsEnded e c) all)

stop_row-All : (e : EmergencyScope) (js : List Job) → All (IsEnded e) (map (stop_row e) js)
stop_row-All e [] = tt
stop_row-All e (j ∷ js) = (stop_row-IsEnded e j, stop_row-All e js)

-- After an emergency stop no stored job in its scope is live, and none becomes live again through
-- approvals, further stops, claims of workers or the ends that workers report, in any order.
pub emergency_stop-ends :
    (e : EmergencyScope) (s : JobStore) (cs : List Control)
    → All (IsEnded e) (control cs (emergency_stop e s).1.jobs)
unfolding emergency_stop
emergency_stop-ends e s cs = control-IsEnded e cs (map (stop_row e) s.jobs) (stop_row-All e s.jobs)
