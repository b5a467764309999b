-- ===== src/Examples/Agents.antt =====
-- Tests of LocalAgent and its children.
use vaultscan.Prelude.{◌≡◌, refl, true, false, none, some, [], ◌∷◌, Bytes, codes, bytes_equal, All}
use vaultscan.ScopeGuard.Targets.{contains, has_suffix}
use vaultscan.Jobs.Targets.{contains_rune}
use vaultscan.LocalAgent.Policy.{
  LocalPolicy, new_local, listed, allows_in, allows_profile, allows_tool, max_concurrent, in_cidr,
  scope_matches, matches_some, allows_target,
}
use vaultscan.LocalAgent.Runner.{join_comma, build_args, wall_cap_of, run_tool}
use vaultscan.LocalAgent.Execute.{
  AgentJob, Surroundings, posts, executes, uploads, has_failed, was_killed, is_running, verified,
  profile_tools, all_targets_allowed, run_tools, execute,
}
use vaultscan.LocalAgent.Gates.{Cleared, execute-Cleared}
use vaultscan.LocalAgent.Ends.{EndsOnce, execute-EndsOnce}
use vaultscan.Examples.Scans.{toy}

abbrev one_scope : LocalPolicy
one_scope = record {
  allowed_scopes = codes "corp.test" ∷ [];
  blocked_scopes = codes "hr.corp.test" ∷ [];
  allowed_profiles = [];
  allowed_tools = codes "nmap" ∷ codes "nuclei" ∷ [];
  max_concurrent_jobs = 0;
  max_cpu = 70;
  max_memory = 75;
}

-- The text of a manifest is its profile, and the signature the same text; the stop comes before
-- nuclei.
abbrev host : Surroundings
host = record {
  lib = record toy { parse_cidr = λ s. none };
  marshal = λ m. m.profile;
  verify = some bytes_equal;
  host = record { look_path = λ tool. true; starts = λ tool. true; allow_synthetic = false };
  stopped = λ tool. bytes_equal tool (codes "nuclei");
  packaged = λ tool. true;
}

abbrev agent_job : Bytes → AgentJob
agent_job target = record {
  manifest = record {
    agent_id = some 8;
    engagement_id = 1;
    job_id = 9;
    plane = codes "internal";
    profile = codes "internal_standard_va";
    targets = target ∷ [];
    tenant_id = 5;
    tools = [];
  };
  job_signature = codes "internal_standard_va";
}

-- Openvas is passed over, and nmap gets the 70 of the policy as seconds.
stopped_later :
    execute host one_scope (agent_job (codes "db.corp.test"))
    ≡ posts is_running
      ∷ executes (record {
        tool = codes "nmap";
        args = codes "-sV" ∷ codes "-Pn" ∷ codes "-oX" ∷ codes "-" ∷ codes "db.corp.test" ∷ [];
        wall_cap = 70;
      })
      ∷ uploads (codes "nmap")
      ∷ posts was_killed
      ∷ []
unfolding execute verified allows_profile allows_in all_targets_allowed allows_target matches_some
    scope_matches in_cidr contains has_suffix contains_rune profile_tools run_tools run_tool listed
    allows_tool build_args wall_cap_of
stopped_later = refl

blocked_scope : execute host one_scope (agent_job (codes "x.hr.corp.test")) ≡ posts has_failed ∷ []
unfolding execute verified allows_profile allows_in all_targets_allowed allows_target matches_some
    scope_matches in_cidr contains has_suffix contains_rune
blocked_scope = refl

at_least_one : max_concurrent one_scope ≡ max_concurrent new_local
unfolding max_concurrent new_local
at_least_one = refl

joined : join_comma (codes "a" ∷ codes "b" ∷ []) ≡ codes "a,b"
unfolding join_comma
joined = refl

execute-Cleared_example :
    All
      (Cleared host one_scope (agent_job (codes "db.corp.test")))
      (execute host one_scope (agent_job (codes "db.corp.test")))
execute-Cleared_example = execute-Cleared host one_scope (agent_job (codes "db.corp.test"))

execute-EndsOnce_example : EndsOnce (execute host one_scope (agent_job (codes "db.corp.test")))
execute-EndsOnce_example = execute-EndsOnce host one_scope (agent_job (codes "db.corp.test"))
