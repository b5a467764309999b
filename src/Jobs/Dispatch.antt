-- ===== src/Jobs/Dispatch.antt =====
-- What `Submit` (backend/internal/scanorch/orchestrator.go) has asked the scope guard
-- (backend/internal/scopeguard/scopeguard.go) before a job is dispatched.
use vaultscan.Prelude.{
  ℕ, ◌+◌, ◌≡◌, ◌∙◌, ◌⊎◌, inl, inr, refl, sym, true, false, Option, none, some, List, [], ◌∷◌, Bytes,
  arith, Bool-cases, Option-cases,
}
use vaultscan.ScopeGuard.{
  approved, requires_manual_approval, Decision, Engagement, LogRow, evaluate, decide,
}
use vaultscan.ScopeGuard.Gates.{IsAuthorized}
use vaultscan.ScopeGuard.Approval.{evaluate_sound}
use vaultscan.ScopeGuard.Manual.{approved-not_manual}
use vaultscan.Jobs.{Job, JobStore, SubmitInput, pending, dispatched}
use vaultscan.Jobs.Setting.{Orchestrator, Moment, submitted}
use vaultscan.Jobs.Stages.{insert_store, submit-Stages}
use vaultscan.Jobs.Submit.{
  guard_inputs, inputs_at, check_targets, all_passed, passes, is_manual, may_insert, insert_job,
  signed_job, submit, new_job,
}

-- A predicate of the targets and their positions.
abbrev pub AllAt : (ℕ → Bytes → Type 0) → ℕ → List Bytes → Type 0
AllAt P k [] = Unit
AllAt P k (t ∷ ts) = P k t × AllAt P (k + 1) ts

AllAt-map :
    (P Q : ℕ → Bytes → Type 0) (k : ℕ) (ts : List Bytes)
    → ((n : ℕ) (t : Bytes) → P n t → Q n t)
    → AllAt P k ts
    → AllAt Q k ts
AllAt-map P Q k [] f all = tt
AllAt-map P Q k (t ∷ ts) f (here, there) = (f k t here, AllAt-map P Q (k + 1) ts f there)

module _ (o : Orchestrator) (m : Moment) (i : SubmitInput) (jobs : List Job) where
  -- What the guard says of the target at a position.
  abbrev verdict : ℕ → Bytes → Option Decision
  verdict k t = decide o.lib (m.checks k).db (inputs_at m i jobs k t) (m.checks k).now

  abbrev Passed : ℕ → Bytes → Type 0
  Passed k t = (d : Decision) × (verdict k t ≡ some d) × (passes d.code ≡ true)

  evaluate-verdict :
      (k : ℕ) (t : Bytes) (rows : List LogRow)
      → (evaluate o.lib (m.checks k).db (m.checks k).now (inputs_at m i jobs k t) rows).0
        ≡ verdict k t
  unfolding evaluate inputs_at guard_inputs
  evaluate-verdict k t rows = ground arith

  check_targets-Passed :
      (k : ℕ) (ts : List Bytes) (last final : Option Decision) (rows rows' : List LogRow)
      → check_targets o m i jobs k ts last rows ≡ (all_passed final, rows')
      → AllAt Passed k ts
        × ((final ≡ last) ⊎ ((n : ℕ) × (t : Bytes) × Passed n t × (verdict n t ≡ final)))
  unfolding check_targets
  check_targets-Passed k [] last final rows rows' h = (tt, inl (ground arith))
  check_targets-Passed k (t ∷ ts) last final rows rows' h =
      let same = evaluate-verdict k t rows in
      elim (Option-cases (verdict k t)) [
        | inl e ↦ absurd (ground arith)
        | inr (d, e) ↦ elim (Bool-cases (passes d.code)) [
          | inr no_pass ↦ absurd (ground arith)
          | inl pass ↦
              let after =
                (evaluate o.lib (m.checks k).db (m.checks k).now (inputs_at m i jobs k t) rows).1 in
              let (rest, end) =
                check_targets-Passed (k + 1) ts (some d) final after rows' (ground arith) in
              (
                ((d, e, pass), rest),
                inr (elim end [ inl z ↦ (k, t, (d, e, pass), e ∙ sym z) | inr later ↦ later ]),
              )
        ]
      ]

  passes-cases :
      (d : Decision)
      → passes d.code ≡ true
      → (d.code ≡ approved) ⊎ (d.code ≡ requires_manual_approval)
  passes-cases d h = ground arith

  -- The target has everything that a scan needs when it is checked.
  abbrev pub Authorized : ℕ → Bytes → Type 0
  Authorized k t =
      (e : Engagement) × ((m.checks k).db.engagement i.engagement_id ≡ some e)
      × IsAuthorized o.lib (m.checks k).db (inputs_at m i jobs k t) (m.checks k).now e

  approved-Authorized :
      (k : ℕ) (t : Bytes) (d : Decision) → verdict k t ≡ some d → d.code ≡ approved → Authorized k t
  unfolding inputs_at guard_inputs
  approved-Authorized k t d e z =
      evaluate_sound o.lib (m.checks k).db (m.checks k).now (inputs_at m i jobs k t) [] d
        (evaluate-verdict k t [] ∙ e) z

  -- The rows of the engagement and of the profile are the same at every check.
  pub record IsSteady : Type 0 where
    pub same_engagement :
        (k n : ℕ)
        → (m.checks k).db.engagement i.engagement_id ≡ (m.checks n).db.engagement i.engagement_id
    pub same_profile :
        (k n : ℕ) → (m.checks k).db.profile i.profile_code ≡ (m.checks n).db.profile i.profile_code

  -- If the last decision asks for no person, then every target was approved.
  approved-All :
      (steady : IsSteady) (ts : List Bytes) (n : ℕ) (t : Bytes) (d : Decision)
      → verdict n t ≡ some d
      → is_manual (some d) ≡ false
      → AllAt Passed 0 ts
      → passes d.code ≡ true
      → AllAt Authorized 0 ts
  unfolding inputs_at guard_inputs
  approved-All steady ts n t d e free all pass =
      AllAt-map Passed Authorized 0 ts
        (λ k t' (d', e', pass'). elim (passes-cases d' pass') [
          | inl z ↦ approved-Authorized k t' d' e' z
          | inr manual ↦ absurd (
              approved-not_manual o.lib (m.checks n).db (m.checks k).db (inputs_at m i jobs n t)
                (inputs_at m i jobs k t') (m.checks n).now (m.checks k).now d d'
                (steady.same_engagement k n) (steady.same_profile k n) refl e (ground arith) e'
                manual)
        ])
        all

  loop-Authorized :
      (steady : IsSteady) (final : Option Decision) (d : Decision) (rows rows' : List LogRow)
      → check_targets o m i jobs 0 i.targets none rows ≡ (all_passed final, rows')
      → final ≡ some d
      → is_manual final ≡ false
      → AllAt Authorized 0 i.targets
  loop-Authorized steady final d rows rows' h e free =
      let (all, end) = check_targets-Passed 0 i.targets none final rows rows' h in
      elim end [
        | inl nothing ↦ absurd (cc)
        | inr (n, t, (d', e', pass), z) ↦
            approved-All steady i.targets n t d' e' (ground (arith, free)) all pass
      ]

-- What the stages behind the guard need for a job that is dispatched at once.
insert-dispatched :
    (o : Orchestrator) (m : Moment) (i : SubmitInput) (tools : List Bytes) (last : Option Decision)
    (j job : Job) (d : Decision) (s s' : JobStore)
    → j.status ≡ pending
    → insert_job o m i tools last j s ≡ (submitted job (some d), s')
    → job.status ≡ dispatched
    → (last ≡ some d)
      × (j.requires_approval ≡ false)
      × (may_insert m.db_later m.later i.engagement_id ≡ true)
unfolding insert_job
insert-dispatched o m i tools last j job d s s' p h z = ground arith

-- A job that `Submit` stores and dispatches at once passed the scope guard with every target: each
-- has everything that an authorized scan needs at the time of its own check, and the engagement is
-- still active and running when the row is inserted. The rows of the engagement and of the profile do
-- not change from one check to the next; all else may, the time, the scope, agents and rates included.
pub submit-dispatched :
    (o : Orchestrator) (m : Moment) (i : SubmitInput) (job : Job) (d : Decision) (s s' : JobStore)
    → IsSteady o m i s.jobs
    → submit o m i s ≡ (submitted job (some d), s')
    → job.status ≡ dispatched
    → AllAt (Authorized o m i s.jobs) 0 i.targets
      × (may_insert m.db_later m.later i.engagement_id ≡ true)
unfolding signed_job new_job
submit-dispatched o m i job d s s' steady h z = elim (submit-Stages o m i job (some d) s s' h) [
  | inl (seen, no_decision, same) ↦ absurd (cc)
  | inr st ↦
      let (same, free, still) =
        insert-dispatched o m i st.p.tools st.last (signed_job o m i st.p st.last st.sig) job d
          (insert_store m s st.rows) s' refl st.inserted z in
      (
        loop-Authorized o m i s.jobs steady st.last d s.decisions st.rows st.checked same
            (ground (arith, free)),
        still,
      )
]
