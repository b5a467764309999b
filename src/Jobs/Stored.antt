-- ===== src/Jobs/Stored.antt =====
-- The rows of scan_jobs (backend/internal/scanorch/orchestrator.go) behind an INSERT and the UPDATE of
-- `Approve`.
use vaultscan.Prelude.{
  ℕ, ◌≡◌, refl, true, Option, none, some, List, [], ◌∷◌, ◌++◌, map, Bytes, bytes_equal_refl, arith,
}
use vaultscan.Jobs.{Job, JobStore, pending, dispatched}
use vaultscan.Jobs.Control.{get_job, approve, approve_row, has_pending, coalesce}
use vaultscan.Jobs.Submit.{job_by_key}

-- The row of a new job once it is approved.
abbrev pub approved_job : Option ℕ → Job → Job
approved_job actor j = record j { status = dispatched; approved_by = coalesce j.approved_by actor }

has_pending-snoc :
    (j : Job) (js : List Job) → j.status ≡ pending → has_pending j.id (js ++ (j ∷ [])) ≡ true
unfolding has_pending
has_pending-snoc j [] p = ground arith
has_pending-snoc j (k ∷ js) p = ground (arith, has_pending-snoc j js p)

pub approve-get :
    (actor : Option ℕ) (j : Job) (js : List Job)
    → j.status ≡ pending
    → get_job j.id js ≡ none
    → get_job j.id (map (approve_row j.id actor) (js ++ (j ∷ []))) ≡ some (approved_job actor j)
unfolding get_job approve_row
approve-get actor j [] p free = ground arith
approve-get actor j (k ∷ js) p free = ground (arith, approve-get actor j js p)

-- A new job with a fresh identifier is approved as it is.
pub approve-snoc :
    (actor : Option ℕ) (j : Job) (js : List Job) (s : JobStore)
    → j.status ≡ pending
    → get_job j.id js ≡ none
    → s.jobs ≡ js ++ (j ∷ [])
    → approve j.id actor s ≡ (
      some (approved_job actor j),
      record s { jobs = map (approve_row j.id actor) (js ++ (j ∷ [])) },
    )
unfolding approve
approve-snoc actor j js s p free e =
    rw e (ground (arith, has_pending-snoc j js p, approve-get actor j js p free))

pub get_job-append :
    (id : ℕ) (front rest : List Job) → get_job id (front ++ rest) ≡ none → get_job id front ≡ none
unfolding get_job
get_job-append id [] rest h = refl
get_job-append id (j ∷ front) rest h = ground (arith, get_job-append id front rest)

-- The first row with a key stays the first.
pub job_by_key-append :
    (tenant : ℕ) (key : Bytes) (job : Job) (front rest : List Job)
    → job_by_key tenant key front ≡ some job
    → job_by_key tenant key (front ++ rest) ≡ some job
unfolding job_by_key
job_by_key-append tenant key job [] rest h = absurd (cc)
job_by_key-append tenant key job (j ∷ front) rest h =
    ground (arith, job_by_key-append tenant key job front rest)

pub job_by_key-snoc :
    (j : Job) (js : List Job)
    → job_by_key j.tenant_id j.idempotency_key js ≡ none
    → job_by_key j.tenant_id j.idempotency_key (js ++ (j ∷ [])) ≡ some j
unfolding job_by_key
job_by_key-snoc j [] h = ground (arith, bytes_equal_refl j.idempotency_key)
job_by_key-snoc j (k ∷ js) h = ground (arith, job_by_key-snoc j js)

-- `Approve` keeps tenants and keys.
pub job_by_key-approve :
    (actor : Option ℕ) (j : Job) (js : List Job)
    → j.status ≡ pending
    → job_by_key j.tenant_id j.idempotency_key js ≡ none
    → job_by_key j.tenant_id j.idempotency_key (map (approve_row j.id actor) (js ++ (j ∷ [])))
      ≡ some (approved_job actor j)
unfolding job_by_key approve_row
job_by_key-approve actor j [] p h = ground (arith, bytes_equal_refl j.idempotency_key)
job_by_key-approve actor j (k ∷ js) p h = ground (arith, job_by_key-approve actor j js p)
