-- ===== src/Jobs/Complete.antt =====
-- When `Submit` (backend/internal/scanorch/orchestrator.go) stores and dispatches a job.
use vaultscan.Prelude.{
  ℕ, ◌+◌, ◌≡◌, ◌∙◌, ap, inl, inr, refl, true, false, Option, none, some, List, [], ◌∷◌, ◌++◌, map,
  Bytes, bytes_equal_refl, arith, Option-cases,
}
use vaultscan.ScopeGuard.{Decision, LogRow, or_approved, evaluate}
use vaultscan.ScopeGuard.Approval.{evaluate_complete}
use vaultscan.Jobs.{Job, JobStore, SubmitInput, ScanProfile, pending, dispatched}
use vaultscan.Jobs.Setting.{Orchestrator, Moment, Outcome, submitted}
use vaultscan.Jobs.Control.{get_job, approve_row}
use vaultscan.Jobs.Submit.{
  may_insert, add_tasks, enqueue, insert_job, sign_job, signed_job, new_job, node_for, lacks_node,
  manifest_of, guard_inputs, guard_and_store, submit, all_passed, check_targets, inputs_at,
  existing_job, job_by_key, first_gates,
}
use vaultscan.Jobs.Dispatch.{AllAt, Authorized}
use vaultscan.Jobs.Stages.{insert_store}
use vaultscan.Jobs.Stored.{approved_job, approve-snoc, approve-get, job_by_key-append}

module _ (o : Orchestrator) (m : Moment) (i : SubmitInput) (jobs : List Job) where
  Authorized-approved :
      (k : ℕ) (t : Bytes) (rows : List LogRow)
      → Authorized o m i jobs k t
      → (rows' : List LogRow) × (evaluate o.lib
            (m.checks k).db
            (m.checks k).now
            (inputs_at m i jobs k t)
            rows
          ≡ (some (or_approved none), rows'))
  unfolding inputs_at guard_inputs
  Authorized-approved k t rows (e, found, ok) =
      let inputs = inputs_at m i jobs k t in
      (
        rows ++ (record { inputs = inputs; decision = or_approved none } ∷ []),
        evaluate_complete o.lib (m.checks k).db (m.checks k).now inputs rows e found ok,
      )

  later_complete :
      (k : ℕ) (ts : List Bytes) (rows : List LogRow)
      → AllAt (Authorized o m i jobs) k ts
      → (rows' : List LogRow) × (check_targets o m i jobs k ts (some (or_approved none)) rows
          ≡ (all_passed (some (or_approved none)), rows'))
  unfolding check_targets
  later_complete k [] rows all = (rows, refl)
  later_complete k (t ∷ ts) rows (here, there) =
      let (after, e) = Authorized-approved k t rows here in
      let (rows', rest) = later_complete (k + 1) ts after there in (rows', ground (arith, e, rest))

  check_targets_complete :
      (t : Bytes) (ts : List Bytes) (rows : List LogRow)
      → AllAt (Authorized o m i jobs) 0 (t ∷ ts)
      → (rows' : List LogRow) × (check_targets o m i jobs 0 (t ∷ ts) none rows
          ≡ (all_passed (some (or_approved none)), rows'))
  unfolding check_targets
  check_targets_complete t ts rows (here, there) =
      let (after, e) = Authorized-approved 0 t rows here in
      let (rows', rest) = later_complete 1 ts after there in (rows', ground (arith, e, rest))

-- What a new job with a fresh identifier and key meets behind the guard, when nothing fails.
pub record IsOpen (o : Orchestrator) (m : Moment) (i : SubmitInput) (p : ScanProfile) (s : JobStore)
    : Type 0 where
  pub gates : first_gates o i ≡ none
  pub new_key : existing_job i (s.jobs ++ m.raced) ≡ none
  pub new_id : get_job m.new_id (s.jobs ++ m.raced) ≡ none
  pub profiled : o.profile_by_code i.profile_code ≡ some p
  pub same_plane : p.plane ≡ i.plane
  pub automatic : p.requires_approval ≡ false
  pub has_node : lacks_node i (node_for o i) ≡ false
  pub signs : (text : Bytes) → (sig : Bytes) × (o.signing.sign text ≡ some sig)
  pub has_images : (add_tasks o m.new_id p.tools).0 ≡ true
  pub still_active : may_insert m.db_later m.later i.engagement_id ≡ true

insert_complete :
    (o : Orchestrator) (m : Moment) (i : SubmitInput) (tools : List Bytes) (last : Option Decision)
    (j : Job) (s : JobStore)
    → j.status ≡ pending
    → j.requires_approval ≡ false
    → existing_job i s.jobs ≡ none
    → get_job j.id s.jobs ≡ none
    → (add_tasks o j.id tools).0 ≡ true
    → may_insert m.db_later m.later i.engagement_id ≡ true
    → (s' : JobStore) × (insert_job o m i tools last j s
        ≡ (submitted (approved_job i.requested_by j) last, s'))
      × (get_job j.id s'.jobs ≡ some (approved_job i.requested_by j))
unfolding insert_job
insert_complete o m i tools last j s p automatic key id images still =
    let stored = record s {
      jobs = s.jobs ++ (j ∷ []);
      tasks = s.tasks ++ (add_tasks o j.id tools).1;
      queue = s.queue ++ enqueue j;
    } in
    (
      record stored { jobs = map (approve_row j.id i.requested_by) (s.jobs ++ (j ∷ [])) },
      ground (arith, approve-snoc i.requested_by j s.jobs stored p id refl),
      approve-get i.requested_by j s.jobs p id,
    )

existing-front :
    (i : SubmitInput) (front rest : List Job)
    → existing_job i (front ++ rest) ≡ none
    → existing_job i front ≡ none
unfolding existing_job
existing-front i front rest h =
    elim (Option-cases (job_by_key i.tenant_id i.idempotency_key front)) [
      | inl e ↦ ground (arith, e)
      | inr (job, e) ↦
          let found = job_by_key-append i.tenant_id i.idempotency_key job front rest e in
          ground (arith, found)
    ]

submit-path :
    (o : Orchestrator) (m : Moment) (i : SubmitInput) (p : ScanProfile) (last : Option Decision)
    (t : Bytes) (ts : List Bytes) (rows : List LogRow) (sig : Bytes) (s : JobStore)
    (r : Outcome × JobStore)
    → i.targets ≡ t ∷ ts
    → first_gates o i ≡ none
    → existing_job i s.jobs ≡ none
    → o.profile_by_code i.profile_code ≡ some p
    → p.plane ≡ i.plane
    → check_targets o m i s.jobs 0 i.targets none s.decisions ≡ (all_passed last, rows)
    → lacks_node i (node_for o i) ≡ false
    → o.signing.sign (o.signing.marshal (manifest_of (new_job o m i p last) p.tools)) ≡ some sig
    → insert_job o m i p.tools last (signed_job o m i p last sig) (insert_store m s rows) ≡ r
    → submit o m i s ≡ r
unfolding submit guard_and_store sign_job
submit-path o m i p last t ts rows sig s r e gates unseen profiled plane checked has signed
      inserted =
    ground (arith, bytes_equal_refl i.plane)

-- If nothing fails on the way, the profile needs no approval and every target has what an authorized
-- scan needs, then `Submit` gives a dispatched job for exactly these targets, and stores it.
pub submit-completes :
    (o : Orchestrator) (m : Moment) (i : SubmitInput) (p : ScanProfile) (t : Bytes)
    (ts : List Bytes) (s : JobStore)
    → i.targets ≡ t ∷ ts
    → IsOpen o m i p s
    → AllAt (Authorized o m i s.jobs) 0 (t ∷ ts)
    → (job : Job) × (s' : JobStore) × (submit o m i s
        ≡ (submitted job (some (or_approved none)), s'))
      × (job.status ≡ dispatched)
      × (job.targets ≡ t ∷ ts)
      × (get_job job.id s'.jobs ≡ some job)
unfolding signed_job new_job
submit-completes o m i p t ts s e open_ all =
    let (rows, checked) = check_targets_complete o m i s.jobs t ts s.decisions all in
    let last = some (or_approved none) in
    let (sig, signed) =
      open_.signs (o.signing.marshal (manifest_of (new_job o m i p last) p.tools)) in
    let j = signed_job o m i p last sig in
    let (s', inserted, stored) =
      insert_complete o m i p.tools last j (insert_store m s rows) refl
        (ground (arith, open_.automatic)) open_.new_key open_.new_id open_.has_images
        open_.still_active in
    let unseen = existing-front i s.jobs m.raced open_.new_key in
    (
      approved_job i.requested_by j,
      s',
      submit-path o m i p last t ts rows sig s (submitted (approved_job i.requested_by j) last, s')
          e open_.gates unseen open_.profiled open_.same_plane
          (ap (λ l. check_targets o m i s.jobs 0 l none s.decisions) e ∙ checked) open_.has_node
          signed inserted,
      refl,
      e,
      stored,
    )
