-- ===== src/ScopeGuard/Approval.antt =====
-- When `Evaluate` (backend/internal/scopeguard/scopeguard.go) approves a scan, and what it writes down.
use vaultscan.Prelude.{
  ℕ, ◌<◌, ◌≡◌, ◌≢◌, inl, inr, refl, ap, ◌∙◌, Bool, true, false, not, Option, none, some, List, [],
  ◌∷◌, ◌++◌, arith, Option-cases,
}
use vaultscan.ScopeGuard.Targets.{TextLib}
use vaultscan.ScopeGuard.{
  Inputs, approved, blocked_out_of_scope, no_scope_entry, Decision, Engagement, ScopeTarget, Db,
  ◌or_else◌, block_if, target_in_scope, check_engagement, check_agent, check_intensity, or_approved,
  check_target, decide, LogRow, now_or, evaluate,
}
use vaultscan.ScopeGuard.Gates.{
  IsAuthorized, check_engagement-none, check_agent-none, check_intensity-none, target_in_scope-true,
}

-- A step that decides against the scan, if it decides.
Blocks : Option Decision → Type 0
Blocks o = (d : Decision) → o ≡ some d → d.code ≢ approved

module _ (lib : TextLib) where
  check_engagement-Blocks :
      (db : Db) (i : Inputs) (now : ℕ) (e : Engagement) → Blocks (check_engagement lib db i now e)
  unfolding check_engagement Blocks
  check_engagement-Blocks db i now e d h z = ground arith

  check_agent-Blocks : (db : Db) (i : Inputs) → Blocks (check_agent db i)
  unfolding check_agent Blocks
  check_agent-Blocks db i d h z = ground arith

  check_intensity-Blocks : (db : Db) (i : Inputs) (e : Engagement) → Blocks (check_intensity db i e)
  unfolding check_intensity Blocks
  check_intensity-Blocks db i e d h z = ground arith

  rest-approved :
      (db : Db) (i : Inputs) (e : Engagement) (found : Bool) (d : Decision)
      → or_approved (
          block_if (not found) blocked_out_of_scope no_scope_entry
          or_else check_agent db i
          or_else check_intensity db i e)
        ≡ d
      → d.code ≡ approved
      → (found ≡ true) × (check_agent db i ≡ none) × (check_intensity db i e ≡ none)
  unfolding Blocks
  rest-approved db i e false d h z = absurd (ground arith)
  rest-approved db i e true d h z = elim (Option-cases (check_agent db i)) [
    | inr (x, a) ↦ absurd (check_agent-Blocks db i x a (ground arith))
    | inl a ↦ elim (Option-cases (check_intensity db i e)) [
      | inr (x, b) ↦ absurd (check_intensity-Blocks db i e x b (ground arith))
      | inl b ↦ (refl, a, b)
    ]
  ]

  pub check_target-approved :
      (db : Db) (i : Inputs) (e : Engagement) (d : Decision)
      → check_target lib db i e ≡ some d
      → d.code ≡ approved
      → (rows : List ScopeTarget × Bool) × (db.scope_targets i.engagement_id ≡ some rows)
        × (target_in_scope lib i rows ≡ some true)
        × (check_agent db i ≡ none)
        × (check_intensity db i e ≡ none)
  unfolding check_target
  check_target-approved db i e d h z = elim (Option-cases (db.scope_targets i.engagement_id)) [
    | inl t ↦ absurd (ground arith)
    | inr (rows, t) ↦ elim (Option-cases (target_in_scope lib i rows)) [
      | inl f ↦ absurd (ground arith)
      | inr (found, f) ↦
          let (at, agent, intensity) = rest-approved db i e found d (ground arith) z in
          (rows, t, f ∙ ap some at, agent, intensity)
    ]
  ]

  pub decide-approved :
      (db : Db) (i : Inputs) (now : ℕ) (d : Decision)
      → decide lib db i now ≡ some d
      → d.code ≡ approved
      → (e : Engagement) × (db.engagement i.engagement_id ≡ some e)
        × (i.recent_jobs_last_hour < 50)
        × (check_engagement lib db i now e ≡ none)
        × (check_target lib db i e ≡ some d)
  unfolding decide Blocks
  decide-approved db i now d h z = elim (Option-cases (db.engagement i.engagement_id)) [
    | inl x ↦ absurd (ground arith)
    | inr (e, x) ↦ elim (Option-cases (check_engagement lib db i now e)) [
      | inr (y, g) ↦ absurd (check_engagement-Blocks db i now e y g (ground arith))
      | inl g ↦ (e, x, ground arith, g, ground arith)
    ]
  ]

  -- A scan that is approved has everything it needs: it is below the limits, its engagement is the
  -- tenant's and the partner's, active, running and documented, the time is in its windows, an
  -- approved entry of the same plane covers the target, an internal scan has a fit agent of the
  -- tenant that is assigned to the engagement, and the profile is within what the engagement allows.
  pub evaluate_sound :
      (db : Db) (clock : ℕ) (i : Inputs) (rows : List LogRow) (d : Decision)
      → (evaluate lib db clock i rows).0 ≡ some d
      → d.code ≡ approved
      → (e : Engagement) × (db.engagement i.engagement_id ≡ some e)
        × IsAuthorized lib db i (now_or clock i.now) e
  unfolding evaluate
  evaluate_sound db clock i rows d h z =
      let now = now_or clock i.now in
      let (e, found, limit, gate, target) = decide-approved db i now d (ground arith) z in
      let (entries, listed, hit, agent, intensity) = check_target-approved db i e d target z in
      let (t, p, a, s, n, doc, dark, window) = (check_engagement-none lib db i now e).0 gate in
      let (within, under, aggressive) = (check_intensity-none db i e).0 intensity in
      (
        e,
        found,
        record {
          under_tenant_limit = limit;
          same_tenant = t;
          same_partner = p;
          active = a;
          started = s;
          not_ended = n;
          documented = doc;
          not_blacked_out = dark;
          in_window = window;
          covered = (entries, listed, (target_in_scope-true lib i entries.0 entries.1).0 hit);
          on_agent = (check_agent-none db i).0 agent;
          within_intensity = within;
          under_engagement_limit = under;
          allowed_aggressive = aggressive;
        },
      )

  -- A scan that has everything it needs is approved, and the decision is written down.
  pub evaluate_complete :
      (db : Db) (clock : ℕ) (i : Inputs) (rows : List LogRow) (e : Engagement)
      → db.engagement i.engagement_id ≡ some e
      → IsAuthorized lib db i (now_or clock i.now) e
      → evaluate lib db clock i rows ≡ (
        some (or_approved none),
        rows ++ (record { inputs = i; decision = or_approved none } ∷ []),
      )
  unfolding evaluate decide check_target
  evaluate_complete db clock i rows e found ok =
      let now = now_or clock i.now in
      let gate = (check_engagement-none lib db i now e).1 (
        ok.same_tenant, ok.same_partner, ok.active, ok.started, ok.not_ended, ok.documented,
        ok.not_blacked_out, ok.in_window,
      ) in
      let agent = (check_agent-none db i).1 ok.on_agent in
      let intensity =
        (check_intensity-none db i e).1
          (ok.within_intensity, ok.under_engagement_limit, ok.allowed_aggressive) in
      let (entries, listed, covered) = ok.covered in
      let hit = (target_in_scope-true lib i entries.0 entries.1).1 covered in
      let limit = ok.under_tenant_limit in ground arith
