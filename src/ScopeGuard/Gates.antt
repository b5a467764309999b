-- ===== src/ScopeGuard/Gates.antt =====
-- What a scan needs, and that each step of `Evaluate` (backend/internal/scopeguard/scopeguard.go) is
-- silent exactly where its need is met.
use vaultscan.Prelude.{
  ℕ, ◌≤◌, ◌<◌, ◌≡◌, ◌⊎◌, ◌↔◌, refl, Bool, true, false, Option, none, some, List, [], ◌∷◌, codes,
  bytes_equal_iff, arith, All,
}
use vaultscan.ScopeGuard.Targets.{TextLib, matches}
use vaultscan.ScopeGuard.Windows.{
  Rules, Blackout, check_window, check_blackouts, outside_hours, day_allowed, minute_of_day,
  day_name,
}
use vaultscan.ScopeGuard.{
  Inputs, Code, Reason, Engagement, ScopeTarget, Db, intensity_rank, ◌or_else◌, block_if,
  profile_or_zero, target_in_scope, check_engagement, agent_fits, check_agent, wants_approval,
  check_intensity,
}

-- No blackout covers the time.
unfoldable pub NotBlackedOut : ℕ → List Blackout → Type 0
NotBlackedOut now = All (λ b. (now < b.starts_at) ⊎ (b.ends_at < now))

module _ (lib : TextLib) where
  -- The day is listed, if any is, and the minute is between the two hours, if both are set and
  -- differ.
  unfoldable pub InWindow : ℕ → Option Rules → Type 0
  InWindow now none = Unit
  InWindow now (some r) =
      (day_allowed lib (day_name now) r.days_of_week ≡ true)
      × (outside_hours (minute_of_day now) r.scan_window_start r.scan_window_end ≡ false)

  -- An entry of the plane that matches the target.
  abbrev pub Covered : Inputs → List ScopeTarget → Type 0
  Covered i [] = ⊥
  Covered i (s ∷ rows) =
      ((s.plane ≡ i.plane)
        × (matches lib s.target_type s.target_value i.target_type i.target_value ≡ true))
      ⊎ Covered i rows

  -- Everything that a scan needs.
  pub record IsAuthorized (db : Db) (i : Inputs) (now : ℕ) (e : Engagement) : Type 0 where
    pub under_tenant_limit : i.recent_jobs_last_hour < 50
    pub same_tenant : e.tenant_id ≡ i.tenant_id
    pub same_partner : e.partner_id ≡ i.partner_id
    pub active : e.status ≡ codes "active"
    pub started : e.starts_at ≤ now
    pub not_ended : now ≤ e.ends_at
    pub documented : 0 < db.document_count i.engagement_id
    pub not_blacked_out : NotBlackedOut now (db.blackouts i.engagement_id)
    pub in_window : InWindow now (db.rules i.engagement_id)
    pub covered :
        (rows : List ScopeTarget × Bool) × (db.scope_targets i.engagement_id ≡ some rows)
        × Covered i rows.0
    pub on_agent :
        i.plane ≡ codes "internal"
        → (agent : ℕ) × (i.agent_id ≡ some agent)
          × (agent_fits i (db.agent agent) ≡ true)
          × (0 < db.assigned agent i.engagement_id)
    pub within_intensity :
        intensity_rank (profile_or_zero (db.profile i.scan_profile)).intensity
        ≤ intensity_rank e.intensity
    pub under_engagement_limit :
        (db.max_scans_per_hour i.engagement_id ≡ 0)
        ⊎ (db.recent_scans i.engagement_id < db.max_scans_per_hour i.engagement_id)
    pub allowed_aggressive :
        (wants_approval i (profile_or_zero (db.profile i.scan_profile)) ≡ false)
        ⊎ (e.intensity ≡ codes "aggressive")

check_blackouts-none :
    (now : ℕ) (bs : List Blackout) → (check_blackouts now bs ≡ none) ↔ NotBlackedOut now bs
unfolding check_blackouts NotBlackedOut
check_blackouts-none now [] = (λ h. tt, λ h. refl)
check_blackouts-none now (b ∷ bs) = ground (arith, check_blackouts-none now bs)

pub or_else-none :
    {A : Type 0} (a b : Option A) → ((a or_else b) ≡ none) ↔ ((a ≡ none) × (b ≡ none))
or_else-none none b = (λ h. (refl, h), λ h. h.1)
or_else-none (some x) b = ground arith

block_if-none : (c : Bool) (code : Code) (r : Reason) → (block_if c code r ≡ none) ↔ (c ≡ false)
block_if-none true code r = ground arith
block_if-none false code r = ground arith

pub check_agent-none :
    (db : Db) (i : Inputs)
    → (check_agent db i ≡ none) ↔ (
        i.plane ≡ codes "internal"
        → (agent : ℕ) × (i.agent_id ≡ some agent)
          × (agent_fits i (db.agent agent) ≡ true)
          × (0 < db.assigned agent i.engagement_id))
unfolding check_agent
check_agent-none db i = ground (arith, bytes_equal_iff i.plane (codes "internal"))

pub check_intensity-none :
    (db : Db) (i : Inputs) (e : Engagement)
    → (check_intensity db i e ≡ none) ↔ (
        (intensity_rank (profile_or_zero (db.profile i.scan_profile)).intensity
          ≤ intensity_rank e.intensity)
        × ((db.max_scans_per_hour i.engagement_id ≡ 0)
            ⊎ (db.recent_scans i.engagement_id < db.max_scans_per_hour i.engagement_id))
        × ((wants_approval i (profile_or_zero (db.profile i.scan_profile)) ≡ false)
            ⊎ (e.intensity ≡ codes "aggressive")))
unfolding check_intensity
check_intensity-none db i e = ground (arith, bytes_equal_iff e.intensity (codes "aggressive"))

module _ (lib : TextLib) where
  check_window-none :
      (now : ℕ) (r : Option Rules) → (check_window lib now r ≡ none) ↔ InWindow lib now r
  unfolding check_window InWindow
  check_window-none now none = (λ h. tt, λ h. refl)
  check_window-none now (some r) = ground arith

  pub target_in_scope-true :
      (i : Inputs) (rows : List ScopeTarget) (failed : Bool)
      → (target_in_scope lib i (rows, failed) ≡ some true) ↔ Covered lib i rows
  unfolding target_in_scope
  target_in_scope-true i [] failed = ground arith
  target_in_scope-true i (s ∷ rows) failed =
      ground (arith, bytes_equal_iff s.plane i.plane, target_in_scope-true i rows failed)

  abbrev pub Runs : Db → Inputs → ℕ → Engagement → Type 0
  Runs db i now e =
      (e.tenant_id ≡ i.tenant_id)
      × (e.partner_id ≡ i.partner_id)
      × (e.status ≡ codes "active")
      × (e.starts_at ≤ now)
      × (now ≤ e.ends_at)
      × (0 < db.document_count i.engagement_id)
      × NotBlackedOut now (db.blackouts i.engagement_id)
      × InWindow lib now (db.rules i.engagement_id)

  pub check_engagement-none :
      (db : Db) (i : Inputs) (now : ℕ) (e : Engagement)
      → (check_engagement lib db i now e ≡ none) ↔ Runs db i now e
  unfolding check_engagement
  check_engagement-none db i now e = ground (
    arith,
    bytes_equal_iff e.status (codes "active"),
    check_blackouts-none now (db.blackouts i.engagement_id),
    check_window-none now (db.rules i.engagement_id),
  )
