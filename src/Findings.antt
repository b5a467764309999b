-- ===== src/Findings.antt =====
-- backend/internal/findings/service.go and ops.go: the store of findings and what changes it.
pub mod Lifecycle
pub mod Moves
pub mod Operations
pub mod Retests
pub mod Sla
pub mod Sweeps
pub mod Matching
pub mod Ingest
pub mod Dedup
pub mod Severity
use vaultscan.Prelude.{
  ℕ, ◌+◌, ◌*◌, Bool, true, false, ◌||◌, ◌&&◌, not, Option, none, some, List, [], ◌∷◌, ◌++◌, map,
  ltb, ◌==◌, if◌then◌else◌, Bytes, codes, bytes_equal, length,
}
use vaultscan.Prelude.Result.{Result, ok, err}
use vaultscan.Findings.Lifecycle.{
  Status, open_, triaged, assigned, risk_accepted, false_positive, remediated, retest_passed,
  closed, status_of, allowed,
}

-- A row of findings: the columns that decide. UUIDs are numbers, times nanoseconds since 1970.
pub record Finding : Type 0 where
  pub id : ℕ
  pub tenant_id : ℕ
  pub status : Status
  pub severity : Bytes
  pub severity_overridden_from : Option Bytes
  pub assigned_to : Option ℕ
  pub scan_job_id : Option ℕ
  pub cluster_id : Option ℕ
  pub suppression_rule_id : Option ℕ
  pub first_seen : ℕ
  pub last_seen : ℕ
  pub due_at : Option ℕ
  pub sla_breached_at : Option ℕ
  pub dedup_fingerprint : Bytes

-- A row of finding_status_history.
pub record History : Type 0 where
  pub finding_id : ℕ
  pub from_status : Option Status
  pub to_status : Status
  pub changed_by : Option ℕ
  pub note : Bytes

-- A row of finding_clusters.
pub record Cluster : Type 0 where
  pub id : ℕ
  pub tenant_id : ℕ
  pub cluster_key : Bytes
  pub severity_max : Bytes
  pub member_count : ℕ

-- A row of finding_suppression_rules that is enabled and has not expired.
pub record SuppressionRule : Type 0 where
  pub id : ℕ
  pub tenant_id : ℕ
  pub title_regex : Option Bytes
  pub cve_pattern : Option Bytes
  pub scanner_filter : Option Bytes
  pub asset_filter : Option Bytes
  pub reason : Bytes
  pub hit_count : ℕ

pub record Store : Type 0 where
  pub findings : List Finding
  pub history : List History
  pub clusters : List Cluster
  pub rules : List SuppressionRule

pub data FindingError : Type 0 where
  not_found invalid_transition database fields_required : FindingError
  assignee_required unknown_action : FindingError

-- Whether the database completes the statements of a call.
pub data Fate : Type 0 where
  completes fails : Fate

unfoldable pub get : ℕ → List Finding → Option Finding
get id [] = none
get id (f ∷ fs) = let later = get id fs in if f.id == id then some f else later

-- UPDATE findings … WHERE id = $1
unfoldable pub update : ℕ → (Finding → Finding) → List Finding → List Finding
update id change [] = []
update id change (f ∷ fs) =
    let others = update id change fs in (if f.id == id then change f else f) ∷ others

-- What the code calls in the packages strings, sha256, fmt, regexp and uuid. A pattern that does not
-- compile matches nothing.
pub record FindingsLib : Type 0 where
  pub to_lower : Bytes → Bytes
  pub to_upper : Bytes → Bytes
  pub sha256_hex : Bytes → Bytes
  pub decimal : ℕ → Bytes
  pub uuid_string : ℕ → Bytes
  pub matches_case_insensitive : Bytes → Bytes → Bool
  pub strip_variable_tokens : Bytes → Bytes

-- `Transition`. The event of the audit log says the same as the row of the history.
unfoldable pub transition :
    FindingsLib
    → Fate
    → Option ℕ
    → ℕ
    → Bytes
    → Bytes
    → Store
    → Result FindingError (Unit {0}) × Store
transition lib fate actor id to note s = elim (get id s.findings) [
  | none ↦ (err not_found, s)
  | some f ↦ elim (status_of (lib.to_lower to)) [
    | none ↦ (err invalid_transition, s)
    | some t ↦
        if allowed f.status t
        then elim fate [
          | fails ↦ (err database, s)
          | completes ↦ (
            ok tt,
            record s {
              findings = update id (λ x. record x { status = t }) s.findings;
              history =
                  s.history
                  ++ (record {
                    finding_id = id;
                    from_status = some f.status;
                    to_status = t;
                    changed_by = actor;
                    note = note;
                  }
                      ∷ []);
            },
          )
        ]
        else (err invalid_transition, s)
  ]
]

-- CASE WHEN status = 'open' THEN 'assigned' ELSE status END
abbrev pub on_assign : Status → Status
on_assign open_ = assigned
on_assign s = s

-- `Assign`
unfoldable pub assign : Fate → ℕ → ℕ → Store → Result FindingError (Unit {0}) × Store
assign fails id assignee s = (err database, s)
assign completes id assignee s = elim (get id s.findings) [
  | none ↦ (err not_found, s)
  | some f ↦ (
    ok tt,
    record s {
      findings =
          update id (λ x. record x { assigned_to = some assignee; status = on_assign x.status })
            s.findings;
    },
  )
]

-- The action of `BulkPatchInput` with what it needs.
pub data Action : Type 0 where
  status_to : Bytes → Action
  assign_to : Option ℕ → Action
  risk_accept unknown : Action

abbrev pub count_ok : ℕ → Result FindingError (Unit {0}) → ℕ
count_ok n (ok x) = n + 1
count_ok n (err e) = n

-- The loop of `BulkPatch` with the findings changed so far. The tenant of the input plays no part.
unfoldable pub bulk_loop :
    FindingsLib
    → (ℕ → Fate)
    → Option ℕ
    → Action
    → Bytes
    → List ℕ
    → ℕ
    → Store
    → (ℕ × Option FindingError) × Store
bulk_loop lib fate actor action note [] n s = ((n, none), s)
bulk_loop lib fate actor (status_to to) note (id ∷ ids) n s =
    let (r, s') = transition lib (fate id) actor id to note s in
    bulk_loop lib fate actor (status_to to) note ids (count_ok n r) s'
bulk_loop lib fate actor (assign_to none) note (id ∷ ids) n s = ((n, some assignee_required), s)
bulk_loop lib fate actor (assign_to (some assignee)) note (id ∷ ids) n s =
    let (r, s') = assign (fate id) id assignee s in
    bulk_loop lib fate actor (assign_to (some assignee)) note ids (count_ok n r) s'
bulk_loop lib fate actor risk_accept note (id ∷ ids) n s =
    let (r, s') = transition lib (fate id) actor id (codes "risk_accepted") note s in
    bulk_loop lib fate actor risk_accept note ids (count_ok n r) s'
bulk_loop lib fate actor unknown note (id ∷ ids) n s = ((0, some unknown_action), s)

unfoldable pub bulk_patch :
    FindingsLib
    → (ℕ → Fate)
    → Option ℕ
    → Action
    → Bytes
    → List ℕ
    → Store
    → (ℕ × Option FindingError) × Store
bulk_patch lib fate actor action note ids s = bulk_loop lib fate actor action note ids 0 s

-- status IN ('open', 'triaged')
abbrev pub suppressible : Status → Bool
suppressible open_ = true
suppressible triaged = true
suppressible _ = false

-- `MarkSuppressed`
unfoldable pub mark_suppressed : ℕ → ℕ → Bytes → Store → Store
mark_suppressed id rule reason s = record s {
  findings =
      update id
        (λ x.
          if suppressible x.status
          then record x { status = false_positive; suppression_rule_id = some rule }
          else x)
        s.findings;
  history =
      s.history
      ++ (record {
        finding_id = id;
        from_status = some open_;
        to_status = false_positive;
        changed_by = none;
        note = codes "auto-suppressed: " ++ reason;
      }
          ∷ []);
}
