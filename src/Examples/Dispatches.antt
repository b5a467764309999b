-- ===== src/Examples/Dispatches.antt =====
-- Tests of Jobs and its children.
use vaultscan.Prelude.{
  ℕ, ◌+◌, List, Option, ◌≡◌, refl, true, false, none, some, [], ◌∷◌, Bytes, codes, bytes_equal,
  bytes_equal_refl, arith, All, ◌⊎◌,
}
use vaultscan.Prelude.Result.{ok}
use vaultscan.ScopeGuard.{
  Db, or_approved, LogRow, evaluate, decide, check_engagement, check_target, check_agent,
  check_intensity, target_in_scope, intensity_rank,
}
use vaultscan.ScopeGuard.Targets.{matches, in_domain, domain_target, has_suffix, host_from_url}
use vaultscan.ScopeGuard.Windows.{
  check_window, check_blackouts, day_listed, outside_hours, minute_of_day, day_name,
}
use vaultscan.Jobs.{Job, JobStore, ScanProfile, SubmitInput, dispatched}
use vaultscan.Jobs.Images.{image_ref_for}
use vaultscan.Jobs.Nodes.{
  Fleet, ScannerNode, pick_scanner_node, pick_in_region, pick_online, fall_back, is_region_at_quota,
  healthy, less_loaded, least_loaded, eligible_node, online_in,
}
use vaultscan.Jobs.Setting.{Signing, Orchestrator, Moment, submitted}
use vaultscan.Jobs.Control.{
  get_job, approve, approve_row, has_pending, EmergencyScope, emergency_stop,
}
use vaultscan.Jobs.Submit.{
  submit, first_gates, existing_job, job_by_key, guard_and_store, check_targets, inputs_at,
  guard_inputs, recent_jobs, sign_job, signed_job, new_job, node_for, manifest_of, insert_job,
  may_insert, add_tasks, enqueue,
}
use vaultscan.Jobs.Targets.{
  detect_target_type, is_cidr, is_ip, has_url_scheme, count_dots, all_digits_or_dot, contains_rune,
  before_slash,
}
use vaultscan.Jobs.Dispatch.{AllAt, IsSteady, Authorized, submit-dispatched}
use vaultscan.Jobs.Worker.{signature_gate, run_signed, submit-runs}
use vaultscan.Jobs.Complete.{IsOpen, submit-completes}
use vaultscan.Jobs.Stop.{approves, claims, control, IsEnded, emergency_stop-ends}
use vaultscan.Jobs.Ladder.{Silent, FirstOf, pick_scanner_node-first}
use vaultscan.Retest.{
  RetestStatus, has_failed, launched, RetestStore, Origin, pending, set_retest, launch_scan,
  launch_input, profile_for_scanner,
}
use vaultscan.Retest.Launch.{Change, controls, reports, change_jobs, launch_again}
use vaultscan.Examples.Scans.{toy, db, noon}

-- The example's engagement, with its domain in scope for external scans.
abbrev external_db : Db
external_db = record db {
  scope_targets = λ id. some (
    record {
      target_type = codes "domain";
      target_value = codes "example.com";
      plane = codes "external";
    }
        ∷ [],
    false,
  );
}

abbrev quick : ScanProfile
quick = record {
  id = 4;
  code = codes "quick";
  plane = codes "external";
  tools = codes "nmap" ∷ codes "nuclei" ∷ [];
  requires_approval = false;
}

-- No node in the regions e and n, two in w of which one is stale.
abbrev in_w : ℕ → ℕ → ScannerNode
in_w id heartbeat = record {
  id = id;
  region = codes "w";
  online = true;
  heartbeat = heartbeat;
  inflight_jobs = 2;
  load = id;
}

abbrev two_regions : Fleet
two_regions = record {
  node_ops = true;
  quota = λ region.
      some (record { max_concurrent_jobs = 9; reserved_for_platform = 1; inflight = some 2 });
  nodes = in_w 5 10 ∷ in_w 6 50 ∷ in_w 7 60 ∷ [];
  cutoff = 40;
  random_online = λ ns. elim ns [ [] ↦ none | (n ∷ rest) ↦ some n.id ];
  ladder = λ region. codes "n" ∷ codes "w" ∷ [];
}

-- A signature is the text itself, and the text of a manifest its profile.
abbrev echo : Signing
echo = record { marshal = λ m. m.profile; sign = λ text. some text; key_id = codes "k" }

abbrev orchestrator : Orchestrator
orchestrator = record {
  lib = toy;
  signing = echo;
  digests = none;
  fallback_registry = codes "r";
  residency = none;
  pod_region = [];
  billing = none;
  profile_by_code = λ code. some quick;
  fleet = two_regions;
}

abbrev moment : Moment
moment = record {
  checks = λ k. record { now = noon + k; db = external_db; others = [] };
  later = noon;
  db_later = external_db;
  raced = [];
  new_id = 9;
}

abbrev input : SubmitInput
input = record {
  partner_id = 3;
  tenant_id = 5;
  engagement_id = 1;
  profile_code = codes "quick";
  plane = codes "external";
  region = codes "e";
  agent_id = none;
  targets = codes "example.com" ∷ codes "a.example.com" ∷ [];
  requested_by = some 2;
  intensity = codes "light";
  idempotency_key = codes "once";
}

abbrev no_jobs : JobStore
no_jobs = record { jobs = []; tasks = []; queue = []; decisions = [] }

abbrev job : Job
job = record {
  id = 9;
  partner_id = 3;
  tenant_id = 5;
  engagement_id = 1;
  profile_id = 4;
  profile_code = codes "quick";
  plane = codes "external";
  region = codes "e";
  agent_id = none;
  scanner_node_id = some 6;
  status = dispatched;
  targets = codes "example.com" ∷ codes "a.example.com" ∷ [];
  requires_approval = false;
  requested_by = some 2;
  approved_by = some 2;
  job_signature = codes "quick";
  signing_key_id = codes "k";
  idempotency_key = codes "once";
  cancellation_reason = [];
  created_at = noon;
}

abbrev logged : Bytes → LogRow
logged t = record {
  inputs = record {
    tenant_id = 5;
    partner_id = 3;
    engagement_id = 1;
    scan_profile = codes "quick";
    target_type = codes "domain";
    target_value = t;
    plane = codes "external";
    agent_id = none;
    requested_by = some 2;
    now = none;
    recent_jobs_last_hour = 0;
    intensity = codes "light";
  };
  decision = or_approved none;
}

abbrev one_job : JobStore
one_job = record {
  jobs = job ∷ [];
  tasks =
      record { scan_job_id = 9; tool = codes "nmap"; image_ref = codes "r/nmap:latest" }
      ∷ record { scan_job_id = 9; tool = codes "nuclei"; image_ref = codes "r/nuclei:latest" }
      ∷ [];
  queue = [];
  decisions = logged (codes "example.com") ∷ logged (codes "a.example.com") ∷ [];
}

stored :
    submit orchestrator moment input no_jobs ≡ (submitted job (some (or_approved none)), one_job)
unfolding submit first_gates existing_job job_by_key guard_and_store check_targets inputs_at
    guard_inputs recent_jobs sign_job signed_job new_job node_for manifest_of insert_job may_insert
    add_tasks enqueue image_ref_for pick_scanner_node pick_in_region pick_online is_region_at_quota
    healthy less_loaded least_loaded eligible_node online_in fall_back get_job approve approve_row
    has_pending detect_target_type is_cidr is_ip has_url_scheme count_dots all_digits_or_dot
    contains_rune before_slash evaluate decide check_engagement check_target check_agent
    check_intensity target_in_scope matches in_domain domain_target has_suffix host_from_url
    check_window check_blackouts day_listed outside_hours minute_of_day day_name intensity_rank
stored = refl

steady : IsSteady orchestrator moment input []
steady = record { same_engagement = λ k n. refl; same_profile = λ k n. refl }

submit-dispatched_example :
    AllAt
      (Authorized orchestrator moment input [])
      0
      (codes "example.com" ∷ codes "a.example.com" ∷ [])
    × (may_insert external_db noon 1 ≡ true)
unfolding recent_jobs
submit-dispatched_example =
    submit-dispatched orchestrator moment input job (or_approved none) no_jobs one_job steady stored
      refl

-- The same key for other targets of the tenant, a day later.
abbrev retried : SubmitInput
retried = record input { targets = codes "other.test" ∷ []; plane = codes "internal" }

echo_accepts : (text sig : Bytes) → some text ≡ some sig → bytes_equal text sig ≡ true
echo_accepts text sig e = ground (arith, bytes_equal_refl text)

submit-runs_example :
    signature_gate echo.marshal (some bytes_equal) true job (codes "nmap" ∷ codes "nuclei" ∷ [])
    ≡ run_signed
unfolding get_job
submit-runs_example =
    submit-runs orchestrator moment input quick job (or_approved none) no_jobs one_job bytes_equal
      true echo_accepts stored refl refl refl refl

nothing_fails : IsOpen orchestrator moment input quick no_jobs
unfolding first_gates existing_job job_by_key node_for pick_scanner_node pick_in_region pick_online
    is_region_at_quota healthy less_loaded least_loaded eligible_node online_in fall_back add_tasks
    image_ref_for may_insert get_job
nothing_fails = record {
  gates = refl;
  new_key = refl;
  new_id = refl;
  profiled = refl;
  same_plane = refl;
  automatic = refl;
  has_node = refl;
  signs = λ text. (text, refl);
  has_images = refl;
  still_active = refl;
}

submit-completes_example :
    (job : Job) × (s' : JobStore) × (submit orchestrator moment input no_jobs
      ≡ (submitted job (some (or_approved none)), s'))
    × (job.status ≡ dispatched)
    × (job.targets ≡ input.targets)
    × (get_job job.id s'.jobs ≡ some job)
unfolding recent_jobs
submit-completes_example =
    submit-completes orchestrator moment input quick (codes "example.com")
      (codes "a.example.com" ∷ []) no_jobs refl nothing_fails
      (submit-dispatched orchestrator moment input job (or_approved none) no_jobs one_job steady
        stored refl).0

abbrev whole_tenant : EmergencyScope
whole_tenant = record { job_id = none; tenant_id = some 5; agent_id = none; reason = [] }

emergency_stop-ends_example : All (IsEnded whole_tenant) (
    control
      (approves 9 none ∷ claims (codes "e") (some 6) 9 ∷ [])
      (emergency_stop whole_tenant one_job).1.jobs)
emergency_stop-ends_example =
    emergency_stop-ends whole_tenant one_job (approves 9 none ∷ claims (codes "e") (some 6) 9 ∷ [])

pick_scanner_node-first_example :
    ((pick_scanner_node two_regions (codes "e") ≡ (none, []))
      × All (Silent two_regions) (codes "e" ∷ codes "n" ∷ codes "w" ∷ []))
    ⊎ (((id : ℕ) × (pick_scanner_node two_regions (codes "e") ≡ (some id, []))
          × (pick_in_region two_regions (codes "e") ≡ ok id))
        ⊎ ((id : ℕ) × (other : Bytes) × (pick_scanner_node two_regions (codes "e")
              ≡ (some id, record { from_region = codes "e"; to_region = other } ∷ []))
            × Silent two_regions (codes "e")
            × FirstOf two_regions (codes "n" ∷ codes "w" ∷ []) id other))
pick_scanner_node-first_example = pick_scanner_node-first two_regions (codes "e")

abbrev origin : Origin
origin = record {
  tenant_id = 5;
  partner_id = 3;
  engagement_id = 1;
  scanner = codes "nmap";
  endpoint = codes "example.com";
}

abbrev retest_job : Job
retest_job = record job {
  region = codes "ae";
  scanner_node_id = some 6;
  targets = codes "example.com" ∷ [];
  idempotency_key = codes "retest:r";
}

abbrev retests : RetestStatus → Option ℕ → RetestStore
retests status job_id = record {
  findings = record { findings = []; history = []; clusters = []; rules = [] };
  retests = record { id = 40; finding_id = 1; status = status; scan_job_id = job_id } ∷ [];
}

abbrev retest_jobs : JobStore
retest_jobs = record {
  jobs = retest_job ∷ [];
  tasks = one_job.tasks;
  queue = [];
  decisions =
      record {
        inputs = record (logged (codes "example.com")).inputs {
          scan_profile = codes "external_standard_va";
          intensity = [];
        };
        decision = or_approved none;
      }
      ∷ [];
}

launch_stored :
    launch_scan orchestrator moment true 40
      (codes "r")
      (some 2)
      origin
      (retests pending none)
      no_jobs
    ≡ (some retest_job, (retests launched (some 9), retest_jobs))
unfolding launch_scan launch_input profile_for_scanner set_retest submit first_gates existing_job
    job_by_key guard_and_store check_targets inputs_at guard_inputs recent_jobs sign_job signed_job
    new_job node_for manifest_of insert_job may_insert add_tasks enqueue image_ref_for
    pick_scanner_node pick_in_region pick_online is_region_at_quota healthy less_loaded least_loaded
    eligible_node online_in fall_back get_job approve approve_row has_pending detect_target_type
    is_cidr is_ip has_url_scheme count_dots all_digits_or_dot contains_rune before_slash evaluate
    decide check_engagement check_target check_agent check_intensity target_in_scope matches
    in_domain domain_target has_suffix host_from_url check_window check_blackouts day_listed
    outside_hours minute_of_day day_name intensity_rank
launch_stored = refl

-- A worker takes the job, and an agent reports on another, before the second launch.
abbrev meanwhile : List Change
meanwhile = controls (claims (codes "ae") (some 6) 9) ∷ reports 8 7 (codes "failed") ∷ []

abbrev later_jobs : JobStore
later_jobs = record retest_jobs { jobs = change_jobs meanwhile retest_jobs.jobs }

launch_again_example :
    (k : Job) × (k.id ≡ 9)
    × (launch_scan orchestrator moment true 40
          (codes "r")
          none
          origin
          (retests has_failed none)
          later_jobs
        ≡ (some k, (retests launched (some 9), later_jobs)))
unfolding set_retest get_job first_gates launch_input
launch_again_example =
    launch_again orchestrator orchestrator moment moment true 40 (codes "r") (some 2) none origin
      origin (retests pending none) (retests launched (some 9)) (retests has_failed none) no_jobs
      retest_jobs later_jobs retest_job meanwhile launch_stored refl refl refl (λ e. cc) refl
