-- ===== src/Examples/Reports.antt =====
-- Tests of Findings and its children.
use vaultscan.Prelude.{
  ◌<◌, ◌≡◌, ◌⊎◌, refl, none, some, List, [], ◌∷◌, arith, true, false, Bytes, codes, bytes_equal,
}
use vaultscan.Prelude.Result.{ok, err}
use vaultscan.Findings.Lifecycle.{
  Status, assigned, retest_requested, retest_passed, status_of, status_among, status_text, allowed,
}
use vaultscan.Findings.{
  Finding, Store, FindingsLib, completes, fails, get, update, transition, risk_accept,
  invalid_transition, status_to,
}
use vaultscan.Findings.Moves.{Keeps}
use vaultscan.Findings.Operations.{
  Op, do_transition, do_bulk_patch, do_sweep, run_op, run_ops, op_goal, run_op-Keeps,
}
use vaultscan.Findings.Retests.{WasRemediated, passed_after_fix}
use vaultscan.Findings.Matching.{IngestInput, Settings, cluster_key, severity_rank, join_cluster}
use vaultscan.Findings.Ingest.{upsert, persist, normalise, by_key}
use vaultscan.Findings.Dedup.{upsert_again}
use vaultscan.Findings.Severity.{join_cluster_twice}

abbrev pub toy : FindingsLib
toy = record {
  to_lower = λ s. s;
  to_upper = λ s. s;
  sha256_hex = λ s. s;
  decimal = λ n. n ∷ [];
  uuid_string = λ n. n ∷ [];
  matches_case_insensitive = bytes_equal;
  strip_variable_tokens = λ s. s;
}

abbrev pub finding : Status → Finding
finding status = record {
  id = 1;
  tenant_id = 5;
  status = status;
  severity = codes "high";
  severity_overridden_from = none;
  assigned_to = none;
  scan_job_id = none;
  cluster_id = none;
  suppression_rule_id = none;
  first_seen = 3;
  last_seen = 3;
  due_at = some 10;
  sla_breached_at = none;
  dedup_fingerprint = codes "f";
}

abbrev pub store : Status → Store
store status = record { findings = finding status ∷ []; history = []; clusters = []; rules = [] }

abbrev fix : List Op
fix =
    do_transition completes none 1 (codes "remediated") []
    ∷ do_sweep 20
    ∷ do_transition fails none 1 (codes "retest_requested") []
    ∷ do_transition completes none 1 (codes "retest_requested") []
    ∷ do_bulk_patch (λ id. completes) none risk_accept [] (1 ∷ 2 ∷ [])
    ∷ do_transition completes none 1 (codes "retest_passed") []
    ∷ []

abbrev bulk : Op
bulk = do_bulk_patch (λ id. completes) none (status_to (codes "remediated")) [] (1 ∷ 1 ∷ [])

run_op-Keeps_example :
    Keeps (op_goal toy bulk) (store assigned).findings (run_op toy bulk (store assigned)).findings
run_op-Keeps_example = run_op-Keeps toy bulk (store assigned)

refused :
    (transition toy completes none 1 (codes "closed") [] (store retest_requested)).0
    ≡ err invalid_transition
unfolding transition get status_of status_among status_text allowed
refused = refl

passes : transition toy completes none 1 (codes "retest_passed") [] (store retest_requested) ≡ (
  ok tt,
  record (store retest_requested) {
    findings = finding retest_passed ∷ [];
    history =
        record {
          finding_id = 1;
          from_status = some retest_requested;
          to_status = retest_passed;
          changed_by = none;
          note = [];
        }
        ∷ [];
  },
)
unfolding transition get update status_of status_among status_text allowed
passes = refl

abbrev last : List Op
last = do_transition completes none 1 (codes "retest_passed") [] ∷ []

last_passes :
    get 1 (run_ops toy last (store retest_requested)).findings ≡ some (finding retest_passed)
unfolding run_ops run_op transition get update status_of status_among status_text allowed
last_passes = refl

held : get 1 (store retest_requested).findings ≡ some (finding retest_requested)
unfolding get
held = refl

passed_after_fix_example :
    (retest_requested ≡ retest_passed)
    ⊎ ((retest_requested ≡ retest_requested) ⊎ WasRemediated toy 1 last (store retest_requested))
passed_after_fix_example =
    passed_after_fix toy last (store retest_requested) 1 (finding retest_requested)
      (finding retest_passed) held last_passes refl

abbrev input : Bytes → IngestInput
input severity = record {
  tenant_id = 5;
  asset_id = none;
  scan_job_id = some 2;
  title = codes "TLS 1.0 enabled";
  severity = severity;
  cve = [];
  cwe = [];
  scanner = codes "nmap";
  affected_endpoint = codes "a:443";
  port = 443;
  protocol = codes "tcp";
}

abbrev settings : Settings
settings = record { overrides = λ tenant. []; severity_sla = λ tenant severity. none }

abbrev empty : Store
empty = record { findings = []; history = []; clusters = []; rules = [] }

stored : (upsert toy settings completes 7 1 3 (input (codes "low")) empty).0 ≡ ok (1, true)
unfolding upsert persist normalise by_key
stored = refl

upsert_again_example :
    let s' = (upsert toy settings completes 7 1 3 (input (codes "low")) empty).1 in
    upsert toy settings completes 9 2 4 (input (codes "low")) s' ≡ (
      ok (1, false),
      record s' {
        findings = update 1 (λ f. record f { last_seen = 9; scan_job_id = some 2 }) s'.findings;
      },
    )
upsert_again_example =
    upsert_again toy settings completes 7 1 3 9 2 4 (input (codes "low")) empty 1 true stored

same_cluster : cluster_key toy (input (codes "critical")) ≡ cluster_key toy (input (codes "medium"))
unfolding cluster_key
same_cluster = refl

above_info : severity_rank toy (codes "info") < severity_rank toy (codes "medium")
unfolding severity_rank
above_info = omega arith

severity_lowered :
    (join_cluster toy 4
      (input (codes "medium"))
      (join_cluster toy 3 (input (codes "critical")) []).0).0
    ≡ record {
      id = 3;
      tenant_id = 5;
      cluster_key = cluster_key toy (input (codes "critical"));
      severity_max = codes "medium";
      member_count = 2;
    }
      ∷ []
severity_lowered =
    join_cluster_twice toy 3 4 (input (codes "critical")) (input (codes "medium")) refl same_cluster
      above_info
