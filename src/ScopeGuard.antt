-- ===== src/ScopeGuard.antt =====
-- backend/internal/scopeguard/scopeguard.go: the gate that every scan passes before it runs.
pub mod Targets
pub mod Windows
pub mod Networks
pub mod Hosts
pub mod Gates
pub mod Approval
pub mod Manual
use vaultscan.Prelude.{
  ℕ, ◌+◌, ◌-◌, ◌*◌, ◌/◌, ◌%◌, Bool, true, false, ◌||◌, ◌&&◌, not, Option, none, some, List, [], ◌∷◌,
  ◌++◌, ltb, leb, ◌==◌, if◌then◌else◌, Bytes, codes, bytes_equal,
}
use vaultscan.Prelude.Result.{Result, ok, err}
use vaultscan.ScopeGuard.Targets.{TextLib, matches}
use vaultscan.ScopeGuard.Windows.{Rules, Blackout, check_window, check_blackouts}

-- UUIDs are numbers, and times nanoseconds since 1970 in UTC.
pub record Inputs : Type 0 where
  pub tenant_id : ℕ
  pub partner_id : ℕ
  pub engagement_id : ℕ
  pub scan_profile : Bytes
  pub target_type : Bytes
  pub target_value : Bytes
  pub plane : Bytes
  pub agent_id : Option ℕ
  pub requested_by : Option ℕ
  pub now : Option ℕ
  pub recent_jobs_last_hour : ℕ
  pub intensity : Bytes

pub data Code : Type 0 where
  approved blocked_out_of_scope blocked_missing_auth blocked_expired blocked_time_window : Code
  blocked_wrong_agent blocked_wrong_tenant blocked_rate_limit requires_manual_approval : Code

pub data Reason : Type 0 where
  tenant_rate_limit engagement_not_found wrong_owner not_active no_document : Reason
  time_window : Bytes → Reason
  no_scope_entry no_agent agent_unfit agent_not_assigned : Reason
  intensity_cap : Bytes → Bytes → Reason
  engagement_rate_limit needs_approval all_satisfied : Reason

pub record Decision : Type 0 where
  pub code : Code
  pub reason : Reason

pub record Engagement : Type 0 where
  pub status : Bytes
  pub starts_at : ℕ
  pub ends_at : ℕ
  pub tenant_id : ℕ
  pub partner_id : ℕ
  pub intensity : Bytes

pub record ScopeTarget : Type 0 where
  pub target_type : Bytes
  pub target_value : Bytes
  pub plane : Bytes

pub record Agent : Type 0 where
  pub tenant_id : ℕ
  pub status : Bytes

pub record Profile : Type 0 where
  pub intensity : Bytes
  pub requires_approval : Bool

-- What the queries give. A count is 0, and a row `none`, if its query fails. Of the approved scope
-- entries `none` stands for a query that fails at once; the flag is set if the rows end with an
-- error.
pub record Db : Type 0 where
  pub engagement : ℕ → Option Engagement
  pub document_count : ℕ → ℕ
  pub blackouts : ℕ → List Blackout
  pub rules : ℕ → Option Rules
  pub scope_targets : ℕ → Option (List ScopeTarget × Bool)
  pub agent : ℕ → Option Agent
  pub assigned : ℕ → ℕ → ℕ
  pub profile : Bytes → Option Profile
  pub max_scans_per_hour : ℕ → ℕ
  pub recent_scans : ℕ → ℕ

unfoldable pub intensity_rank : Bytes → ℕ
intensity_rank intensity =
    if bytes_equal intensity (codes "light")
    then 1
    else if bytes_equal intensity (codes "standard")
    then 2
    else if bytes_equal intensity (codes "aggressive")
    then 3
    else 0

-- Early returns: the first step that decides.
infixl 3 ◌or_else◌
abbrev pub ◌or_else◌ : {A : Type 0} → Option A → Option A → Option A
some a or_else later = some a
none or_else later = later

abbrev pub block_if : Bool → Code → Reason → Option Decision
block_if true code reason = some (record { code = code; reason = reason })
block_if false code reason = none

-- The variables that a row leaves at their zero values if it is missing.
abbrev pub profile_or_zero : Option Profile → Profile
profile_or_zero none = record { intensity = []; requires_approval = false }
profile_or_zero (some p) = p

abbrev pub agent_fits : Inputs → Option Agent → Bool
agent_fits i none = false
agent_fits i (some a) =
    (a.tenant_id == i.tenant_id)
    && (bytes_equal a.status (codes "online") || bytes_equal a.status (codes "pending"))

-- Step 5: an internal scan runs on an agent of the tenant that is assigned to the engagement.
unfoldable pub check_agent : Db → Inputs → Option Decision
check_agent db i =
    if bytes_equal i.plane (codes "internal")
    then elim i.agent_id [
      | none ↦ block_if true blocked_wrong_agent no_agent
      | some agent ↦
          block_if (not (agent_fits i (db.agent agent))) blocked_wrong_agent agent_unfit
          or_else block_if (db.assigned agent i.engagement_id == 0) blocked_wrong_agent
              agent_not_assigned
    ]
    else none

abbrev pub wants_approval : Inputs → Profile → Bool
wants_approval i p =
    p.requires_approval
    || bytes_equal p.intensity (codes "aggressive")
    || bytes_equal i.intensity (codes "aggressive")

-- Steps 5b, 5c and 6.
unfoldable pub check_intensity : Db → Inputs → Engagement → Option Decision
check_intensity db i e =
    let p = profile_or_zero (db.profile i.scan_profile) in
    let cap = db.max_scans_per_hour i.engagement_id in
    block_if (ltb (intensity_rank e.intensity) (intensity_rank p.intensity)) blocked_out_of_scope
      (intensity_cap p.intensity e.intensity)
    or_else block_if (ltb 0 cap && leb cap (db.recent_scans i.engagement_id)) blocked_rate_limit
        engagement_rate_limit
    or_else block_if (wants_approval i p && not (bytes_equal e.intensity (codes "aggressive")))
        requires_manual_approval needs_approval

abbrev pub or_approved : Option Decision → Decision
or_approved (some d) = d
or_approved none = record { code = approved; reason = all_satisfied }

module _ (lib : TextLib) where
  -- The loop over the rows, and rows.Err() behind it.
  unfoldable pub target_in_scope : Inputs → List ScopeTarget × Bool → Option Bool
  target_in_scope i ([], failed) = if failed then none else some false
  target_in_scope i (s ∷ rows, failed) =
      let others = target_in_scope i (rows, failed) in
      if not (bytes_equal s.plane i.plane)
      then others
      else if matches lib s.target_type s.target_value i.target_type i.target_value
      then some true
      else others

  -- Steps 1 to 3: the engagement, its documents and its hours.
  unfoldable pub check_engagement : Db → Inputs → ℕ → Engagement → Option Decision
  check_engagement db i now e =
      block_if (not (e.tenant_id == i.tenant_id) || not (e.partner_id == i.partner_id))
        blocked_wrong_tenant wrong_owner
      or_else block_if
          (not (bytes_equal e.status (codes "active")) || ltb e.ends_at now || ltb now e.starts_at)
          blocked_expired not_active
      or_else block_if (db.document_count i.engagement_id == 0) blocked_missing_auth no_document
      or_else elim (check_blackouts now (db.blackouts i.engagement_id)) [
        | none ↦ none
        | some why ↦ block_if true blocked_time_window (time_window why)
      ]
      or_else elim (check_window lib now (db.rules i.engagement_id)) [
        | none ↦ none
        | some why ↦ block_if true blocked_time_window (time_window why)
      ]

  -- Step 4 and what follows; `none` is the error of a failing query.
  unfoldable pub check_target : Db → Inputs → Engagement → Option Decision
  check_target db i e = elim (db.scope_targets i.engagement_id) [
    | none ↦ none
    | some rows ↦ elim (target_in_scope i rows) [
      | none ↦ none
      | some found ↦ some (
          or_approved (
            block_if (not found) blocked_out_of_scope no_scope_entry
            or_else check_agent db i
            or_else check_intensity db i e))
    ]
  ]

  unfoldable pub decide : Db → Inputs → ℕ → Option Decision
  decide db i now =
      block_if (leb 50 i.recent_jobs_last_hour) blocked_rate_limit tenant_rate_limit
      or_else elim (db.engagement i.engagement_id) [
        | none ↦ block_if true blocked_missing_auth engagement_not_found
        | some e ↦ check_engagement db i now e or_else check_target db i e
      ]

-- A row of scope_decision_logs.
pub record LogRow : Type 0 where
  pub inputs : Inputs
  pub decision : Decision

abbrev pub now_or : ℕ → Option ℕ → ℕ
now_or clock none = clock
now_or clock (some now) = now

module _ (lib : TextLib) where
  -- `Evaluate` at the time `clock`, over the rows of scope_decision_logs.
  unfoldable pub evaluate : Db → ℕ → Inputs → List LogRow → Option Decision × List LogRow
  evaluate db clock i rows = elim (decide lib db i (now_or clock i.now)) [
    | none ↦ (none, rows)
    | some d ↦ (some d, rows ++ (record { inputs = i; decision = d } ∷ []))
  ]
