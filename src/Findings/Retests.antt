-- ===== src/Findings/Retests.antt =====
-- What the table of backend/internal/findings/service.go demands before a retest can pass.
use vaultscan.Prelude.{
  arith, ℕ, ◌≡◌, ◌⊎◌, ◌∙◌, inl, inr, refl, sym, ap, true, Option, none, some, List, [], ◌∷◌, ◌++◌,
}
use vaultscan.Findings.Lifecycle.{
  Status, open_, triaged, assigned, risk_accepted, false_positive, remediated, retest_requested,
  retest_passed, retest_failed, closed, in_progress, allowed,
}
use vaultscan.Findings.{Finding, Store, FindingsLib, get}
use vaultscan.Findings.Moves.{OneMove, Keeps}
use vaultscan.Findings.Operations.{Op, op_goal, run_op, run_ops, run_op-Keeps}

into_passed : (a : Status) → allowed a retest_passed ≡ true → a ≡ retest_requested
unfolding allowed
into_passed open_ e = cc
into_passed triaged e = cc
into_passed assigned e = cc
into_passed in_progress e = cc
into_passed risk_accepted e = cc
into_passed false_positive e = cc
into_passed remediated e = cc
into_passed retest_requested e = refl
into_passed retest_passed e = cc
into_passed retest_failed e = cc
into_passed closed e = cc

into_requested : (a : Status) → allowed a retest_requested ≡ true → a ≡ remediated
unfolding allowed
into_requested open_ e = cc
into_requested triaged e = cc
into_requested assigned e = cc
into_requested in_progress e = cc
into_requested risk_accepted e = cc
into_requested false_positive e = cc
into_requested remediated e = refl
into_requested retest_requested e = cc
into_requested retest_passed e = cc
into_requested retest_failed e = cc
into_requested closed e = cc

step_into_passed :
    (t : Option Status) (a b : Status)
    → OneMove t a b
    → b ≡ retest_passed
    → (a ≡ retest_passed) ⊎ (a ≡ retest_requested)
step_into_passed none a b p e = inl (sym p ∙ e)
step_into_passed (some t) a b (inl p) e = inl (sym p ∙ e)
step_into_passed (some t) a b (inr (p, ok)) e =
    let at : t ≡ retest_passed = sym p ∙ e in inr (into_passed a (rw at at ok))

step_into_requested :
    (t : Option Status) (a b : Status)
    → OneMove t a b
    → b ≡ retest_requested
    → (a ≡ retest_requested) ⊎ (a ≡ remediated)
step_into_requested none a b p e = inl (sym p ∙ e)
step_into_requested (some t) a b (inl p) e = inl (sym p ∙ e)
step_into_requested (some t) a b (inr (p, ok)) e =
    let at : t ≡ retest_requested = sym p ∙ e in inr (into_requested a (rw at at ok))

module _ (lib : FindingsLib) (id : ℕ) where
  -- The operations up to some point, where the finding is remediated.
  abbrev pub WasRemediated : List Op → Store → Type 0
  WasRemediated ops s =
      (before : List Op) × (after : List Op) × (h : Finding) × (ops ≡ before ++ after)
      × (get id (run_ops lib before s).findings ≡ some h)
      × (h.status ≡ remediated)

  later-WasRemediated :
      (op : Op) (ops : List Op) (s : Store)
      → WasRemediated ops (run_op lib op s)
      → WasRemediated (op ∷ ops) s
  unfolding run_ops
  later-WasRemediated op ops s (before, after, h, split, found, at) =
      (op ∷ before, after, h, ap (λ x. op ∷ x) split, found, at)

  ends_requested :
      (ops : List Op) (s : Store) (f g : Finding)
      → get id s.findings ≡ some f
      → get id (run_ops lib ops s).findings ≡ some g
      → g.status ≡ retest_requested
      → (f.status ≡ retest_requested) ⊎ WasRemediated ops s
  unfolding run_ops Keeps
  ends_requested [] s f g was is e = let same : f ≡ g = ground (arith, was, is) in inl (rw same e)
  ends_requested (op ∷ ops) s f g was is e =
      let (h, found, step) = run_op-Keeps lib op s id f was in
      elim (ends_requested ops (run_op lib op s) h g found is e) [
        | inr later ↦ inr (later-WasRemediated op ops s later)
        | inl at ↦ elim (step_into_requested (op_goal lib op) f.status h.status step at) [
          | inl already ↦ inl already
          | inr fixed ↦ inr ([], op ∷ ops, f, refl, was, fixed)
        ]
      ]

  ends_passed :
      (ops : List Op) (s : Store) (f g : Finding)
      → get id s.findings ≡ some f
      → get id (run_ops lib ops s).findings ≡ some g
      → g.status ≡ retest_passed
      → (f.status ≡ retest_passed) ⊎ ((f.status ≡ retest_requested) ⊎ WasRemediated ops s)
  unfolding run_ops Keeps
  ends_passed [] s f g was is e = let same : f ≡ g = ground (arith, was, is) in inl (rw same e)
  ends_passed (op ∷ ops) s f g was is e =
      let (h, found, step) = run_op-Keeps lib op s id f was in
      elim (ends_passed ops (run_op lib op s) h g found is e) [
        | inr (inr later) ↦ inr (inr (later-WasRemediated op ops s later))
        | inr (inl at) ↦ elim (step_into_requested (op_goal lib op) f.status h.status step at) [
          | inl already ↦ inr (inl already)
          | inr fixed ↦ inr (inr ([], op ∷ ops, f, refl, was, fixed))
        ]
        | inl at ↦ elim (step_into_passed (op_goal lib op) f.status h.status step at) [
          | inl already ↦ inl already
          | inr asked ↦ inr (inl asked)
        ]
      ]

-- A finding that ends a run of operations with its retest passed had it passed or requested at the
-- start, or the run can be cut at a point where the finding is remediated.
pub passed_after_fix :
    (lib : FindingsLib) (ops : List Op) (s : Store) (id : ℕ) (f g : Finding)
    → get id s.findings ≡ some f
    → get id (run_ops lib ops s).findings ≡ some g
    → g.status ≡ retest_passed
    → (f.status ≡ retest_passed) ⊎ ((f.status ≡ retest_requested) ⊎ WasRemediated lib id ops s)
passed_after_fix lib ops s id f g was is passed = ends_passed lib id ops s f g was is passed
