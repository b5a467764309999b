-- ===== src/Jobs/Retry.antt =====
-- A second `Submit` (backend/internal/scanorch/orchestrator.go) with the key of a first one.
use vaultscan.Prelude.{
  ◌≡◌, ◌≢◌, inl, inr, refl, false, Option, none, some, List, [], ◌∷◌, ◌++◌, Bytes, bytes_equal,
  arith, Bool-cases, Option-cases,
}
use vaultscan.ScopeGuard.{Decision}
use vaultscan.Jobs.{Job, JobStore, SubmitInput, pending}
use vaultscan.Jobs.Setting.{Orchestrator, Moment, submitted}
use vaultscan.Jobs.Control.{get_job}
use vaultscan.Jobs.Submit.{
  add_tasks, enqueue, insert_job, signed_job, new_job, submit, existing_job, job_by_key,
  first_gates,
}
use vaultscan.Jobs.Stages.{insert_store, submit-Stages}
use vaultscan.Jobs.Stored.{approve-snoc, job_by_key-snoc, job_by_key-approve}

none_by_key :
    (i : SubmitInput) (j : Job) (js : List Job)
    → j.tenant_id ≡ i.tenant_id
    → j.idempotency_key ≡ i.idempotency_key
    → bytes_equal i.idempotency_key [] ≡ false
    → existing_job i js ≡ none
    → job_by_key j.tenant_id j.idempotency_key js ≡ none
unfolding existing_job
none_by_key i j js t k keyed x = rw (t, k) (ground (arith, x))

-- A job that comes back without an error is found under its key.
insert-keyed :
    (o : Orchestrator) (m : Moment) (i : SubmitInput) (tools : List Bytes)
    (last d : Option Decision) (j job : Job) (s s' : JobStore)
    → j.status ≡ pending
    → j.tenant_id ≡ i.tenant_id
    → j.idempotency_key ≡ i.idempotency_key
    → bytes_equal i.idempotency_key [] ≡ false
    → get_job j.id s.jobs ≡ none
    → insert_job o m i tools last j s ≡ (submitted job d, s')
    → existing_job i s'.jobs ≡ some job
unfolding insert_job existing_job
insert-keyed o m i tools last d j job s s' p t k keyed free h =
    elim (Option-cases (existing_job i s.jobs)) [
      | inr (other, x) ↦ ground (arith, x)
      | inl x ↦
          let unseen = none_by_key i j s.jobs t k keyed x in
          elim (Bool-cases j.requires_approval) [
            | inl manual ↦ ground (arith, x, job_by_key-snoc j s.jobs unseen)
            | inr automatic ↦
                let stored = record s {
                  jobs = s.jobs ++ (j ∷ []);
                  tasks = s.tasks ++ (add_tasks o j.id tools).1;
                  queue = s.queue ++ enqueue j;
                } in
                ground (
                  arith,
                  x,
                  approve-snoc i.requested_by j s.jobs stored p free refl,
                  job_by_key-approve i.requested_by j s.jobs p unseen,
                )
          ]
    ]

-- A `Submit` with a key that gives a job leaves that job under the key.
pub submit-keyed :
    (o : Orchestrator) (m : Moment) (i : SubmitInput) (job : Job) (d : Option Decision)
    (s s' : JobStore)
    → bytes_equal i.idempotency_key [] ≡ false
    → get_job m.new_id (s.jobs ++ m.raced) ≡ none
    → submit o m i s ≡ (submitted job d, s')
    → existing_job i s'.jobs ≡ some job
unfolding signed_job new_job
submit-keyed o m i job d s s' keyed free h = elim (submit-Stages o m i job d s s' h) [
  | inl (seen, no_decision, same) ↦ rw same seen
  | inr st ↦
      insert-keyed o m i st.p.tools st.last d (signed_job o m i st.p st.last st.sig) job
        (insert_store m s st.rows) s' refl refl refl keyed free st.inserted
]

-- `Submit` where the tenant has a job with the key already.
pub submit-found :
    (o : Orchestrator) (m : Moment) (i : SubmitInput) (job : Job) (s : JobStore)
    → existing_job i s.jobs ≡ some job
    → i.targets ≢ []
    → first_gates o i ≡ none
    → submit o m i s ≡ (submitted job none, s)
unfolding submit
submit-found o m i job s found targets gates = ground (arith, found, gates, targets)
