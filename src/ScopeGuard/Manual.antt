-- ===== src/ScopeGuard/Manual.antt =====
-- A scan that needs a manual approval (backend/internal/scopeguard/scopeguard.go) needs it whatever its
-- target is.
use vaultscan.Prelude.{
  ℕ, ◌≡◌, ◌≢◌, inl, inr, Bool, ◌∙◌, true, false, not, codes, bytes_equal, some, arith, Option-cases,
}
use vaultscan.ScopeGuard.Targets.{TextLib}
use vaultscan.ScopeGuard.{
  Inputs, approved, blocked_out_of_scope, no_scope_entry, requires_manual_approval, Decision,
  Engagement, Db, ◌or_else◌, block_if, target_in_scope, check_engagement, check_agent,
  check_intensity, wants_approval, profile_or_zero, or_approved, check_target, decide,
}
use vaultscan.ScopeGuard.Approval.{decide-approved, check_target-approved}

module _ (lib : TextLib) where
  check_engagement-definite :
      (db : Db) (i : Inputs) (now : ℕ) (e : Engagement) (d : Decision)
      → check_engagement lib db i now e ≡ some d
      → d.code ≢ requires_manual_approval
  unfolding check_engagement
  check_engagement-definite db i now e d h z = ground arith

  check_agent-definite :
      (db : Db) (i : Inputs) (d : Decision)
      → check_agent db i ≡ some d
      → d.code ≢ requires_manual_approval
  unfolding check_agent
  check_agent-definite db i d h z = ground arith

  -- The scan wants an approval that its engagement does not give.
  abbrev NeedsApproval : Db → Inputs → Engagement → Type 0
  NeedsApproval db i e =
      (wants_approval i (profile_or_zero (db.profile i.scan_profile)) ≡ true)
      × (bytes_equal e.intensity (codes "aggressive") ≡ false)

  rest-manual :
      (db : Db) (i : Inputs) (e : Engagement) (found : Bool) (d : Decision)
      → or_approved (
          block_if (not found) blocked_out_of_scope no_scope_entry
          or_else check_agent db i
          or_else check_intensity db i e)
        ≡ d
      → d.code ≡ requires_manual_approval
      → NeedsApproval db i e
  unfolding check_intensity
  rest-manual db i e false d h z = absurd (ground arith)
  rest-manual db i e true d h z = elim (Option-cases (check_agent db i)) [
    | inr (x, a) ↦ absurd (check_agent-definite db i x a (ground arith))
    | inl a ↦ ground arith
  ]

  check_target-manual :
      (db : Db) (i : Inputs) (e : Engagement) (d : Decision)
      → check_target lib db i e ≡ some d
      → d.code ≡ requires_manual_approval
      → NeedsApproval db i e
  unfolding check_target
  check_target-manual db i e d h z = elim (Option-cases (db.scope_targets i.engagement_id)) [
    | inl t ↦ absurd (ground arith)
    | inr (rows, t) ↦ elim (Option-cases (target_in_scope lib i rows)) [
      | inl f ↦ absurd (ground arith)
      | inr (found, f) ↦ rest-manual db i e found d (ground arith) z
    ]
  ]

  decide-manual :
      (db : Db) (i : Inputs) (now : ℕ) (e : Engagement) (d : Decision)
      → db.engagement i.engagement_id ≡ some e
      → decide lib db i now ≡ some d
      → d.code ≡ requires_manual_approval
      → NeedsApproval db i e
  unfolding decide
  decide-manual db i now e d x h z = elim (Option-cases (check_engagement lib db i now e)) [
    | inr (y, g) ↦ absurd (check_engagement-definite db i now e y g (ground arith))
    | inl g ↦ check_target-manual db i e d (ground arith) z
  ]

  -- Two scans for the same engagement with the same profile and intensity are not one approved and one
  -- left to a person, if the rows of the engagement and of the profile are the same for both.
  pub approved-not_manual :
      (db db' : Db) (i j : Inputs) (now now' : ℕ) (d d' : Decision)
      → db'.engagement j.engagement_id ≡ db.engagement i.engagement_id
      → db'.profile j.scan_profile ≡ db.profile i.scan_profile
      → i.intensity ≡ j.intensity
      → decide lib db i now ≡ some d
      → d.code ≡ approved
      → decide lib db' j now' ≡ some d'
      → d'.code ≢ requires_manual_approval
  unfolding check_intensity
  approved-not_manual db db' i j now now' d d' same_engagement same_profile same_intensity h a h'
        z =
      let (e, found, limit, gate, target) = decide-approved lib db i now d h a in
      let (entries, listed, hit, agent, intensity) = check_target-approved lib db i e d target a in
      let (wants, mild) = decide-manual db' j now' e d' (same_engagement ∙ found) h' z in
      ground (arith, intensity, wants, mild, same_profile, same_intensity)
