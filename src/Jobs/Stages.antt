-- ===== src/Jobs/Stages.antt =====
-- The stages that a successful `Submit` (backend/internal/scanorch/orchestrator.go) has passed.
use vaultscan.Prelude.{
  ◌≡◌, ◌⊎◌, inl, inr, refl, Option, none, some, List, ◌++◌, Bytes, arith, Bool-cases, Option-cases,
}
use vaultscan.ScopeGuard.{Decision, LogRow}
use vaultscan.Jobs.{Job, JobStore, SubmitInput, ScanProfile}
use vaultscan.Jobs.Setting.{Orchestrator, Moment, submitted}
use vaultscan.Jobs.Submit.{
  Checked, guard_error, blocked, all_passed, insert_job, sign_job, signed_job, new_job, node_for,
  lacks_node, manifest_of, guard_and_store, submit, check_targets, existing_job, first_gates,
}

Checked-cases :
    (c : Checked)
    → (c ≡ guard_error)
      ⊎ (((d : Decision) × (c ≡ blocked d)) ⊎ ((last : Option Decision) × (c ≡ all_passed last)))
Checked-cases guard_error = inl refl
Checked-cases (blocked d) = inr (inl (d, refl))
Checked-cases (all_passed last) = inr (inr (last, refl))

-- The state in which the INSERT of a new job runs.
abbrev pub insert_store : Moment → JobStore → List LogRow → JobStore
insert_store m s rows = record s { decisions = rows; jobs = s.jobs ++ m.raced }

-- The stages of a job that is new.
pub record Stages (o : Orchestrator) (m : Moment) (i : SubmitInput) (job : Job)
    (d : Option Decision) (s s' : JobStore) : Type 0 where
  pub p : ScanProfile
  pub last : Option Decision
  pub rows : List LogRow
  pub sig : Bytes
  pub unseen : existing_job i s.jobs ≡ none
  pub profiled : o.profile_by_code i.profile_code ≡ some p
  pub checked : check_targets o m i s.jobs 0 i.targets none s.decisions ≡ (all_passed last, rows)
  pub signed :
      o.signing.sign (o.signing.marshal (manifest_of (new_job o m i p last) p.tools)) ≡ some sig
  pub inserted :
      insert_job o m i p.tools last (signed_job o m i p last sig) (insert_store m s rows)
      ≡ (submitted job d, s')

sign-Stages :
    (o : Orchestrator) (m : Moment) (i : SubmitInput) (p : ScanProfile) (last : Option Decision)
    (job : Job) (d : Option Decision) (s s' : JobStore)
    → sign_job o m i p last s ≡ (submitted job d, s')
    → (sig : Bytes) × (o.signing.sign
          (o.signing.marshal (manifest_of (new_job o m i p last) p.tools))
        ≡ some sig)
      × (insert_job o m i p.tools last
            (signed_job o m i p last sig)
            (record s { jobs = s.jobs ++ m.raced })
          ≡ (submitted job d, s'))
unfolding sign_job
sign-Stages o m i p last job d s s' h =
    let text = o.signing.marshal (manifest_of (new_job o m i p last) p.tools) in
    elim (Bool-cases (lacks_node i (node_for o i))) [
      | inl lacks ↦ absurd (ground arith)
      | inr has ↦ elim (Option-cases (o.signing.sign text)) [
        | inl e ↦ absurd (ground arith)
        | inr (sig, e) ↦ (sig, e, ground arith)
      ]
    ]

guard-Stages :
    (o : Orchestrator) (m : Moment) (i : SubmitInput) (p : ScanProfile) (job : Job)
    (d : Option Decision) (s s' : JobStore)
    → existing_job i s.jobs ≡ none
    → o.profile_by_code i.profile_code ≡ some p
    → guard_and_store o m i p s ≡ (submitted job d, s')
    → Stages o m i job d s s'
unfolding guard_and_store
guard-Stages o m i p job d s s' x q h =
    let (checked, rows) = check_targets o m i s.jobs 0 i.targets none s.decisions in
    elim (Checked-cases checked) [
      | inl e ↦ absurd (ground arith)
      | inr (inl (d, e)) ↦ absurd (ground arith)
      | inr (inr (last, e)) ↦
          let (sig, signed, inserted) =
            sign-Stages o m i p last job d (record s { decisions = rows }) s' (ground arith) in
          record {
            p = p;
            last = last;
            rows = rows;
            sig = sig;
            unseen = x;
            profiled = q;
            checked = ground arith;
            signed = signed;
            inserted = inserted;
          }
    ]

-- A job that comes back is one that has the key already, or has passed every stage.
pub submit-Stages :
    (o : Orchestrator) (m : Moment) (i : SubmitInput) (job : Job) (d : Option Decision)
    (s s' : JobStore)
    → submit o m i s ≡ (submitted job d, s')
    → ((existing_job i s.jobs ≡ some job) × (d ≡ none) × (s' ≡ s)) ⊎ Stages o m i job d s s'
unfolding submit
submit-Stages o m i job d s s' h = elim (Option-cases (first_gates o i)) [
  | inr (why, g) ↦ absurd (ground arith)
  | inl g ↦ elim (Option-cases (existing_job i s.jobs)) [
    | inr (other, x) ↦ inl (ground arith)
    | inl x ↦ elim (Option-cases (o.profile_by_code i.profile_code)) [
      | inl q ↦ absurd (ground arith)
      | inr (p, q) ↦ inr (guard-Stages o m i p job d s s' x q (ground arith))
    ]
  ]
]
