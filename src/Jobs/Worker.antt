-- ===== src/Jobs/Worker.antt =====
-- The worker (backend/internal/scanner/worker.go) and the manifest that the orchestrator
-- (backend/internal/scanorch/orchestrator.go) signs.
use vaultscan.Prelude.{
  ◌≡◌, inl, inr, refl, Bool, true, Option, none, some, List, [], ◌∷◌, ◌++◌, Bytes, codes, arith,
  Bool-cases, if◌then◌else◌,
}
use vaultscan.ScopeGuard.{Decision}
use vaultscan.Jobs.{Job, JobStore, SubmitInput, ScanProfile, pending}
use vaultscan.Jobs.Setting.{Manifest, Orchestrator, Moment, submitted}
use vaultscan.Jobs.Control.{get_job}
use vaultscan.Jobs.Submit.{insert_job, signed_job, new_job, manifest_of, submit, add_tasks, enqueue}
use vaultscan.Jobs.Stages.{insert_store, submit-Stages}
use vaultscan.Jobs.Stored.{approve-snoc}

-- How `execute` of an external worker begins; none stands for an empty `signerPubPEM`, and the
-- function for `VerifyExternal` under that key.
pub data Gate : Type 0 where
  run_signed bad_signature no_key run_unsigned : Gate

unfoldable pub worker_manifest : Job → List Bytes → Manifest
worker_manifest j tools = record {
  agent_id = none;
  engagement_id = j.engagement_id;
  job_id = j.id;
  plane = codes "external";
  profile = j.profile_code;
  targets = j.targets;
  tenant_id = j.tenant_id;
  tools = tools;
}

unfoldable pub signature_gate :
    (Manifest → Bytes) → Option (Bytes → Bytes → Bool) → Bool → Job → List Bytes → Gate
signature_gate marshal none require_signatures j tools =
    if require_signatures then no_key else run_unsigned
signature_gate marshal (some verify) require_signatures j tools =
    if verify (marshal (worker_manifest j tools)) j.job_signature then run_signed else bad_signature

-- Neither the INSERT nor `Approve` touches what is signed.
insert-manifest :
    (o : Orchestrator) (m : Moment) (i : SubmitInput) (tools : List Bytes) (last : Option Decision)
    (j job : Job) (d : Decision) (s s' : JobStore)
    → j.status ≡ pending
    → get_job j.id s.jobs ≡ none
    → insert_job o m i tools last j s ≡ (submitted job (some d), s')
    → (worker_manifest job tools ≡ worker_manifest j tools) × (job.job_signature ≡ j.job_signature)
unfolding insert_job worker_manifest
insert-manifest o m i tools last j job d s s' p free h =
    let stored = record s {
      jobs = s.jobs ++ (j ∷ []);
      tasks = s.tasks ++ (add_tasks o j.id tools).1;
      queue = s.queue ++ enqueue j;
    } in
    elim (Bool-cases j.requires_approval) [
      | inl manual ↦ ground arith
      | inr automatic ↦ ground (arith, approve-snoc i.requested_by j s.jobs stored p free refl)
    ]

worker_manifest-eq :
    (o : Orchestrator) (m : Moment) (i : SubmitInput) (p : ScanProfile) (last : Option Decision)
    (sig : Bytes)
    → i.plane ≡ codes "external"
    → i.agent_id ≡ none
    → worker_manifest (signed_job o m i p last sig) p.tools
      ≡ manifest_of (new_job o m i p last) p.tools
unfolding worker_manifest manifest_of signed_job new_job
worker_manifest-eq o m i p last sig external no_agent = rw (external, no_agent) refl

-- An external job that `Submit` stores for no agent passes the signature check of every worker that
-- reads the same tools from its profile, if the worker's key accepts what the signer signs.
pub submit-runs :
    (o : Orchestrator) (m : Moment) (i : SubmitInput) (p : ScanProfile) (job : Job) (d : Decision)
    (s s' : JobStore) (verify : Bytes → Bytes → Bool) (require_signatures : Bool)
    → ((text sig : Bytes) → o.signing.sign text ≡ some sig → verify text sig ≡ true)
    → submit o m i s ≡ (submitted job (some d), s')
    → get_job m.new_id (s.jobs ++ m.raced) ≡ none
    → o.profile_by_code i.profile_code ≡ some p
    → i.plane ≡ codes "external"
    → i.agent_id ≡ none
    → signature_gate o.signing.marshal (some verify) require_signatures job p.tools ≡ run_signed
unfolding signature_gate signed_job new_job
submit-runs o m i p job d s s' verify require_signatures accepts h free q external no_agent =
    elim (submit-Stages o m i job (some d) s s' h) [
      | inl (seen, no_decision, same) ↦ absurd (cc)
      | inr st ↦
          let j = signed_job o m i st.p st.last st.sig in
          let (fields, sig) =
            insert-manifest o m i st.p.tools st.last j job d (insert_store m s st.rows) s' refl free
              st.inserted in
          let text = o.signing.marshal (manifest_of (new_job o m i st.p st.last) st.p.tools) in
          let accepted = accepts text st.sig st.signed in
          let same_p : p ≡ st.p = ground (arith, q, st.profiled) in
          let same_fields = worker_manifest-eq o m i st.p st.last st.sig external no_agent in
          rw (same_p, fields, same_fields, sig, accepted) refl
    ]
