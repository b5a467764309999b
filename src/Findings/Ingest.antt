-- ===== src/Findings/Ingest.antt =====
-- `Upsert` (backend/internal/findings/service.go) with AttachCluster and what else it calls in
-- backend/internal/findings/ops.go.
use vaultscan.Prelude.{
  ℕ, ◌+◌, ◌*◌, Bool, true, false, ◌||◌, ◌&&◌, Option, none, some, List, [], ◌∷◌, ◌++◌, ◌==◌,
  if◌then◌else◌, Bytes, codes, bytes_equal,
}
use vaultscan.Prelude.Result.{Result, ok, err}
use vaultscan.Findings.Lifecycle.{open_}
use vaultscan.Findings.{
  Finding, SuppressionRule, Store, FindingsLib, FindingError, database, fields_required, Fate,
  completes, fails, update, mark_suppressed,
}
use vaultscan.Findings.Matching.{
  IngestInput, Settings, is_empty, valid_severity, dedup_fingerprint, apply_overrides,
  evaluate_suppression, join_cluster,
}

module _ (lib : FindingsLib) where
  -- `AttachCluster`
  unfoldable pub attach_cluster : ℕ → ℕ → IngestInput → Store → Store
  attach_cluster new finding i s =
      let (clusters, cluster) = join_cluster lib new i s.clusters in
      record s {
        clusters = clusters;
        findings = update finding (λ f. record f { cluster_id = some cluster }) s.findings;
      }

  abbrev pub suppress_by : ℕ → Option SuppressionRule → Store → Store
  suppress_by finding none s = s
  suppress_by finding (some r) s = mark_suppressed finding r.id r.reason s

  -- The end of `Upsert` for a new finding.
  unfoldable pub after_insert : ℕ → ℕ → IngestInput → Store → Store
  after_insert cluster finding i s =
      let s' = attach_cluster cluster finding i s in
      let (rule, rules) = evaluate_suppression lib i s'.rules in
      suppress_by finding rule (record s' { rules = rules })

-- The row of a tenant with a fingerprint; the two are a key of the table.
unfoldable pub by_key : ℕ → Bytes → List Finding → Option Finding
by_key tenant fp [] = none
by_key tenant fp (f ∷ fs) =
    let later = by_key tenant fp fs in
    if (f.tenant_id == tenant) && bytes_equal f.dedup_fingerprint fp then some f else later

abbrev pub coalesce : Option ℕ → Option ℕ → Option ℕ
coalesce none b = b
coalesce (some a) b = some a

abbrev pub days_or_30 : Option ℕ → ℕ
days_or_30 none = 30
days_or_30 (some n) = n

-- DO UPDATE
unfoldable pub refresh : ℕ → IngestInput → Finding → Finding
refresh now i f = record f { last_seen = now; scan_job_id = coalesce i.scan_job_id f.scan_job_id }

module _ (lib : FindingsLib) where
  -- The severity that is persisted, and the one it replaces if an override fired.
  unfoldable pub normalise : Settings → IngestInput → IngestInput × Option Bytes
  normalise settings i =
      let lower = lib.to_lower i.severity in
      let base = record i { severity = if valid_severity lower then lower else codes "info" } in
      elim (apply_overrides lib base (settings.overrides i.tenant_id)) [
        | none ↦ (base, none)
        | some sev ↦
            if bytes_equal sev base.severity
            then (base, none)
            else (record base { severity = sev }, some base.severity)
      ]

  -- The INSERT with its due date.
  unfoldable pub new_finding : Settings → ℕ → ℕ → IngestInput → Option Bytes → Finding
  new_finding settings id now i from = record {
    id = id;
    tenant_id = i.tenant_id;
    status = open_;
    severity = i.severity;
    severity_overridden_from = from;
    assigned_to = none;
    scan_job_id = i.scan_job_id;
    cluster_id = none;
    suppression_rule_id = none;
    first_seen = now;
    last_seen = now;
    due_at =
        some (now + days_or_30 (settings.severity_sla i.tenant_id i.severity) * 86_400_000_000_000);
    sla_breached_at = none;
    dedup_fingerprint = dedup_fingerprint lib i;
  }

  -- The transaction of `Upsert`, and what follows it if the finding is new. `id` and `cluster` are
  -- the UUIDs that are drawn.
  unfoldable pub persist :
      Settings
      → ℕ
      → ℕ
      → ℕ
      → IngestInput × Option Bytes
      → Store
      → Result FindingError (ℕ × Bool) × Store
  persist settings now id cluster (i, from) s =
      elim (by_key i.tenant_id (dedup_fingerprint lib i) s.findings) [
        | some f ↦
            (ok (f.id, false), record s { findings = update f.id (refresh now i) s.findings })
        | none ↦ (
          ok (id, true),
          after_insert lib cluster id i (record s {
            findings = s.findings ++ (new_finding settings id now i from ∷ []);
            history =
                s.history
                ++ (record {
                  finding_id = id;
                  from_status = none;
                  to_status = open_;
                  changed_by = none;
                  note = codes "initial ingest";
                }
                    ∷ []);
          }),
        )
      ]

  -- `Upsert`: the id of the finding, and whether it is new.
  unfoldable pub upsert :
      Settings → Fate → ℕ → ℕ → ℕ → IngestInput → Store → Result FindingError (ℕ × Bool) × Store
  upsert settings fate now id cluster i s =
      let done = persist settings now id cluster (normalise settings i) s in
      if is_empty i.title || is_empty i.severity || is_empty i.scanner
      then (err fields_required, s)
      else elim fate [ fails ↦ (err database, s) | completes ↦ done ]
