-- ===== src/Findings/Matching.antt =====
-- What decides about a finding that comes in (backend/internal/findings/service.go, ops.go): its severity,
-- its fingerprint, the overrides, the suppression rules and its cluster.
use vaultscan.Prelude.{
  ℕ, ◌+◌, Bool, true, false, ◌||◌, ◌&&◌, not, Option, none, some, List, [], ◌∷◌, ltb, ◌==◌,
  if◌then◌else◌, Bytes, codes, bytes_equal, take,
}
use vaultscan.Audit.{fields}
use vaultscan.Findings.{Cluster, SuppressionRule, FindingsLib}

-- The fields of `IngestInput` that decide; the others are stored as they are.
pub record IngestInput : Type 0 where
  pub tenant_id : ℕ
  pub asset_id : Option ℕ
  pub scan_job_id : Option ℕ
  pub title : Bytes
  pub severity : Bytes
  pub cve : Bytes
  pub cwe : Bytes
  pub scanner : Bytes
  pub affected_endpoint : Bytes
  pub port : ℕ
  pub protocol : Bytes

-- A row of finding_severity_overrides.
pub record Override : Type 0 where
  pub title_regex : Option Bytes
  pub cve_pattern : Option Bytes
  pub scanner_filter : Option Bytes
  pub new_severity : Bytes

-- What a tenant has set: its enabled overrides in their order, and the days to fix a severity.
pub record Settings : Type 0 where
  pub overrides : ℕ → List Override
  pub severity_sla : ℕ → Bytes → Option ℕ

abbrev pub is_empty : Bytes → Bool
is_empty [] = true
is_empty (c ∷ s) = false

abbrev pub severity_levels : List Bytes
severity_levels = codes "critical" ∷ codes "high" ∷ codes "medium" ∷ codes "low" ∷ codes "info" ∷ []

unfoldable pub text_among : Bytes → List Bytes → Bool
text_among s [] = false
text_among s (t ∷ ts) = bytes_equal t s || text_among s ts

unfoldable pub valid_severity : Bytes → Bool
valid_severity s = text_among s severity_levels

-- scanner != nil && *scanner != "" && *scanner != in.Scanner
abbrev pub other_scanner : Option Bytes → Bytes → Bool
other_scanner none scanner = false
other_scanner (some wanted) scanner = not (is_empty wanted) && not (bytes_equal wanted scanner)

module _ (lib : FindingsLib) where
  open lib use {to_lower, to_upper, sha256_hex, decimal, uuid_string}

  unfoldable pub severity_rank : Bytes → ℕ
  severity_rank s =
      let t = to_lower s in
      if bytes_equal t (codes "critical")
      then 5
      else if bytes_equal t (codes "high")
      then 4
      else if bytes_equal t (codes "medium")
      then 3
      else if bytes_equal t (codes "low")
      then 2
      else if bytes_equal t (codes "info")
      then 1
      else 0

  abbrev pub hash_asset : Option ℕ → Bytes
  hash_asset none = []
  hash_asset (some id) = uuid_string id

  unfoldable pub dedup_fingerprint : IngestInput → Bytes
  dedup_fingerprint i = sha256_hex (
      fields (
        to_lower i.title
        ∷ i.scanner
        ∷ i.affected_endpoint
        ∷ i.cve
        ∷ i.cwe
        ∷ decimal i.port
        ∷ i.protocol
        ∷ to_lower i.severity
        ∷ hash_asset i.asset_id
        ∷ []))

  unfoldable pub cluster_key : IngestInput → Bytes
  cluster_key i = take 32 (
      sha256_hex
        (fields (i.scanner ∷ to_upper i.cve ∷ lib.strip_variable_tokens (to_lower i.title) ∷ [])))

  -- p != nil && *p != "" && matchesCaseInsensitive(*p, value)
  unfoldable pub pattern_hits : Option Bytes → Bytes → Bool
  pattern_hits none value = false
  pattern_hits (some p) value = not (is_empty p) && lib.matches_case_insensitive p value

  -- The loop of `ApplyOverrides`: the severity of the first rule that fires.
  unfoldable pub apply_overrides : IngestInput → List Override → Option Bytes
  apply_overrides i [] = none
  apply_overrides i (o ∷ os) =
      let later = apply_overrides i os in
      if other_scanner o.scanner_filter i.scanner
      then later
      else if not (not (is_empty i.cve) && pattern_hits o.cve_pattern i.cve)
          && not (pattern_hits o.title_regex i.title)
      then later
      else some o.new_severity

  -- A pattern that is not set hits everything.
  unfoldable pub unset_or_hits : Option Bytes → Bytes → Bool
  unset_or_hits none value = true
  unset_or_hits (some p) value = is_empty p || lib.matches_case_insensitive p value

  abbrev pub unset_or_hits_some : Option Bytes → Bytes → Bool
  unset_or_hits_some none value = true
  unset_or_hits_some (some p) value =
      is_empty p || (not (is_empty value) && lib.matches_case_insensitive p value)

  unfoldable pub suppresses : IngestInput → SuppressionRule → Bool
  suppresses i r =
      (r.tenant_id == i.tenant_id)
      && not (other_scanner r.scanner_filter i.scanner)
      && unset_or_hits r.title_regex i.title
      && unset_or_hits_some r.cve_pattern i.cve
      && unset_or_hits_some r.asset_filter i.affected_endpoint

  -- The loop of `EvaluateSuppression`: the first rule that applies, and the rules with its hit counted.
  unfoldable pub evaluate_suppression :
      IngestInput → List SuppressionRule → Option SuppressionRule × List SuppressionRule
  evaluate_suppression i [] = (none, [])
  evaluate_suppression i (r ∷ rs) =
      let (found, rest) = evaluate_suppression i rs in
      if suppresses i r
      then (some r, record r { hit_count = r.hit_count + 1 } ∷ rs)
      else (found, r ∷ rest)

  -- ON CONFLICT (tenant_id, cluster_key): the rank is compared with that of "info".
  unfoldable pub join_cluster : ℕ → IngestInput → List Cluster → List Cluster × ℕ
  join_cluster new i [] = (
    record {
      id = new;
      tenant_id = i.tenant_id;
      cluster_key = cluster_key i;
      severity_max = i.severity;
      member_count = 1;
    }
        ∷ [],
    new,
  )
  join_cluster new i (c ∷ cs) =
      let (rest, id) = join_cluster new i cs in
      if (c.tenant_id == i.tenant_id) && bytes_equal c.cluster_key (cluster_key i)
      then (
        record c {
          severity_max =
              if ltb (severity_rank (codes "info")) (severity_rank i.severity)
              then i.severity
              else c.severity_max;
          member_count = c.member_count + 1;
        }
            ∷ cs,
        c.id,
      )
      else (c ∷ rest, id)
