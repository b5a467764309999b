-- ===== src/Findings/Operations.antt =====
-- What each operation on findings (backend/internal/findings/service.go, ops.go) does to their states.
use vaultscan.Prelude.{
  ℕ, ◌≡◌, inl, inr, refl, true, Option, none, some, List, [], ◌∷◌, if◌then◌else◌, Bytes, codes,
  arith, Bool-cases, Option-cases,
}
use vaultscan.Findings.Lifecycle.{
  Status, open_, triaged, assigned, risk_accepted, false_positive, remediated, retest_requested,
  retest_passed, retest_failed, closed, in_progress, status_of, allowed,
}
use vaultscan.Findings.{
  Finding, Store, FindingsLib, Fate, completes, fails, get, transition, assign, on_assign, Action,
  status_to, assign_to, risk_accept, unknown, count_ok, bulk_loop, bulk_patch, suppressible,
  mark_suppressed,
}
use vaultscan.Findings.Sla.{stamp, sweep_sla_breaches}
use vaultscan.Findings.Moves.{OneMove, Keeps, Keeps-refl, Keeps-trans, update-Keeps, map-Keeps}

pub data Op : Type 0 where
  do_transition : Fate → Option ℕ → ℕ → Bytes → Bytes → Op
  do_assign : Fate → ℕ → ℕ → Op
  do_bulk_patch : (ℕ → Fate) → Option ℕ → Action → Bytes → List ℕ → Op
  do_suppress : ℕ → ℕ → Bytes → Op
  do_sweep : ℕ → Op

on_assign-OneMove : (a : Status) → OneMove (some assigned) a (on_assign a)
unfolding allowed
on_assign-OneMove open_ = inr (refl, refl)
on_assign-OneMove triaged = inl refl
on_assign-OneMove assigned = inl refl
on_assign-OneMove in_progress = inl refl
on_assign-OneMove risk_accepted = inl refl
on_assign-OneMove false_positive = inl refl
on_assign-OneMove remediated = inl refl
on_assign-OneMove retest_requested = inl refl
on_assign-OneMove retest_passed = inl refl
on_assign-OneMove retest_failed = inl refl
on_assign-OneMove closed = inl refl

suppressible-allowed : (a : Status) → suppressible a ≡ true → allowed a false_positive ≡ true
unfolding allowed
suppressible-allowed open_ e = refl
suppressible-allowed triaged e = refl
suppressible-allowed assigned e = cc
suppressible-allowed in_progress e = cc
suppressible-allowed risk_accepted e = cc
suppressible-allowed false_positive e = cc
suppressible-allowed remediated e = cc
suppressible-allowed retest_requested e = cc
suppressible-allowed retest_passed e = cc
suppressible-allowed retest_failed e = cc
suppressible-allowed closed e = cc

module _ (lib : FindingsLib) where
  transition_to :
      (fate : Fate) (actor : Option ℕ) (id : ℕ) (to note : Bytes) (s : Store) (f : Finding)
      (t : Status)
      → get id s.findings ≡ some f
      → status_of (lib.to_lower to) ≡ some t
      → Keeps (some t) s.findings (transition lib fate actor id to note s).1.findings
  unfolding transition
  transition_to fate actor id to note s f t e p = elim (Bool-cases (allowed f.status t)) [
    | inr barred ↦ rw (e, p, barred, transition) (Keeps-refl (some t) s.findings)
    | inl listed ↦
        elim fate
          as (λ x. Keeps (some t) s.findings (transition lib x actor id to note s).1.findings) [
            | fails ↦ rw (e, p, listed, transition) (Keeps-refl (some t) s.findings)
            | completes ↦
                rw (e, p, listed, transition)
                  (update-Keeps (λ x. record x { status = t }) (λ x. refl) (some t) id s.findings
                    (λ g at. let same : g ≡ f = ground arith in inr (refl, rw same listed)))
          ]
  ]

  transition-Keeps :
      (fate : Fate) (actor : Option ℕ) (id : ℕ) (to note : Bytes) (s : Store)
      → Keeps
          (status_of (lib.to_lower to))
          s.findings
          (transition lib fate actor id to note s).1.findings
  unfolding transition
  transition-Keeps fate actor id to note s =
      let goal = status_of (lib.to_lower to) in
      elim (Option-cases (get id s.findings)) [
        | inl e ↦ rw (e, transition) (Keeps-refl goal s.findings)
        | inr (f, e) ↦ elim (Option-cases goal) [
          | inl p ↦ rw (e, p, transition) (Keeps-refl none s.findings)
          | inr (t, p) ↦ rw p (transition_to fate actor id to note s f t e p)
        ]
      ]

assign-Keeps :
    (fate : Fate) (id assignee : ℕ) (s : Store)
    → Keeps (some assigned) s.findings (assign fate id assignee s).1.findings
unfolding assign
assign-Keeps fails id assignee s = Keeps-refl (some assigned) s.findings
assign-Keeps completes id assignee s = elim (Option-cases (get id s.findings)) [
  | inl e ↦ rw (e, assign) (Keeps-refl (some assigned) s.findings)
  | inr (f, e) ↦
      rw (e, assign)
        (update-Keeps (λ x. record x { assigned_to = some assignee; status = on_assign x.status })
          (λ x. refl) (some assigned) id s.findings (λ g at. on_assign-OneMove g.status))
]

suppress : ℕ → Finding → Finding
suppress rule x =
    if suppressible x.status
    then record x { status = false_positive; suppression_rule_id = some rule }
    else x

suppress-id : (rule : ℕ) (x : Finding) → (suppress rule x).id ≡ x.id
unfolding suppress
suppress-id rule x = ground arith

suppress-OneMove :
    (rule : ℕ) (x : Finding) → OneMove (some false_positive) x.status (suppress rule x).status
unfolding suppress
suppress-OneMove rule x = elim (Bool-cases (suppressible x.status)) [
  | inl listed ↦ rw (listed, suppress) (inr (refl, suppressible-allowed x.status listed))
  | inr barred ↦ rw (barred, suppress) (inl refl)
]

mark_suppressed-Keeps :
    (id rule : ℕ) (reason : Bytes) (s : Store)
    → Keeps (some false_positive) s.findings (mark_suppressed id rule reason s).findings
unfolding mark_suppressed suppress
mark_suppressed-Keeps id rule reason s =
    update-Keeps (suppress rule) (suppress-id rule) (some false_positive) id s.findings
      (λ g at. suppress-OneMove rule g)

stamp-id : (now : ℕ) (x : Finding) → (stamp now x).id ≡ x.id
stamp-id now x = ground arith

stamp-status : (now : ℕ) (x : Finding) → (stamp now x).status ≡ x.status
stamp-status now x = ground arith

sweep-Keeps : (now : ℕ) (s : Store) → Keeps none s.findings (sweep_sla_breaches now s).1.findings
unfolding sweep_sla_breaches
sweep-Keeps now s = map-Keeps (stamp now) (stamp-id now) none s.findings (λ x. stamp-status now x)

module _ (lib : FindingsLib) where
  -- The one state into which an action moves findings, if any.
  unfoldable pub action_goal : Action → Option Status
  action_goal (status_to to) = status_of (lib.to_lower to)
  action_goal (assign_to assignee) = some assigned
  action_goal risk_accept = status_of (lib.to_lower (codes "risk_accepted"))
  action_goal unknown = none

  bulk_loop-Keeps :
      (fate : ℕ → Fate) (actor : Option ℕ) (action : Action) (note : Bytes) (ids : List ℕ) (n : ℕ)
      (s : Store)
      → Keeps
          (action_goal action)
          s.findings
          (bulk_loop lib fate actor action note ids n s).1.findings
  unfolding bulk_loop action_goal
  bulk_loop-Keeps fate actor action note [] n s = Keeps-refl (action_goal action) s.findings
  bulk_loop-Keeps fate actor (status_to to) note (id ∷ ids) n s =
      let (r, s') = transition lib (fate id) actor id to note s in
      Keeps-trans _ s.findings s'.findings _ (transition-Keeps lib (fate id) actor id to note s)
        (bulk_loop-Keeps fate actor (status_to to) note ids (count_ok n r) s')
  bulk_loop-Keeps fate actor (assign_to none) note (id ∷ ids) n s = Keeps-refl _ s.findings
  bulk_loop-Keeps fate actor (assign_to (some assignee)) note (id ∷ ids) n s =
      let (r, s') = assign (fate id) id assignee s in
      Keeps-trans _ s.findings s'.findings _ (assign-Keeps (fate id) id assignee s)
        (bulk_loop-Keeps fate actor (assign_to (some assignee)) note ids (count_ok n r) s')
  bulk_loop-Keeps fate actor risk_accept note (id ∷ ids) n s =
      let (r, s') = transition lib (fate id) actor id (codes "risk_accepted") note s in
      Keeps-trans _ s.findings s'.findings _
        (transition-Keeps lib (fate id) actor id (codes "risk_accepted") note s)
        (bulk_loop-Keeps fate actor risk_accept note ids (count_ok n r) s')
  bulk_loop-Keeps fate actor unknown note (id ∷ ids) n s = Keeps-refl none s.findings

  unfoldable pub run_op : Op → Store → Store
  run_op (do_transition fate actor id to note) s = (transition lib fate actor id to note s).1
  run_op (do_assign fate id assignee) s = (assign fate id assignee s).1
  run_op (do_bulk_patch fate actor action note ids) s =
      (bulk_patch lib fate actor action note ids s).1
  run_op (do_suppress id rule reason) s = mark_suppressed id rule reason s
  run_op (do_sweep now) s = (sweep_sla_breaches now s).1

  unfoldable pub run_ops : List Op → Store → Store
  run_ops [] s = s
  run_ops (op ∷ ops) s = run_ops ops (run_op op s)

  unfoldable pub op_goal : Op → Option Status
  op_goal (do_transition fate actor id to note) = status_of (lib.to_lower to)
  op_goal (do_assign fate id assignee) = some assigned
  op_goal (do_bulk_patch fate actor action note ids) = action_goal action
  op_goal (do_suppress id rule reason) = some false_positive
  op_goal (do_sweep now) = none

  -- A single call, a bulk change, a suppression or a sweep, whether its statements fail or not, loses
  -- no finding, and every finding has afterwards the state that it had, or the one state that the
  -- operation asks for, into which the table allows a move from the state that it had; a sweep, and a
  -- text that is no state, move nothing.
  pub run_op-Keeps : (op : Op) (s : Store) → Keeps (op_goal op) s.findings (run_op op s).findings
  unfolding run_op bulk_patch op_goal action_goal
  run_op-Keeps (do_transition fate actor id to note) s =
      transition-Keeps lib fate actor id to note s
  run_op-Keeps (do_assign fate id assignee) s = assign-Keeps fate id assignee s
  run_op-Keeps (do_bulk_patch fate actor action note ids) s =
      bulk_loop-Keeps fate actor action note ids 0 s
  run_op-Keeps (do_suppress id rule reason) s = mark_suppressed-Keeps id rule reason s
  run_op-Keeps (do_sweep now) s = sweep-Keeps now s
