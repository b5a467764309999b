-- ===== src/LocalAgent/Execute.antt =====
-- What the agent does with a job that it has polled (agent/cmd/agent/main.go, execute).
use vaultscan.Prelude.{
  Bool, true, false, ◌||◌, ◌&&◌, not, Option, none, some, List, [], ◌∷◌, ◌++◌, if◌then◌else◌, Bytes,
  codes, bytes_equal,
}
use vaultscan.ScopeGuard.Targets.{TextLib}
use vaultscan.Jobs.Setting.{Manifest}
use vaultscan.LocalAgent.Policy.{LocalPolicy, allows_profile, allows_target}
use vaultscan.LocalAgent.Runner.{
  Command, tool_not_allowed, synthetic_forbidden, start_failed, fabricated, executed, Host,
  run_tool,
}

-- `job`, with its signed fields as the manifest that the agent builds of them.
pub record AgentJob : Type 0 where
  pub manifest : Manifest
  pub job_signature : Bytes

-- What surrounds the agent: the text functions, json.Marshal, the check of a signature under the
-- loaded key if there is one, the host, whether the emergency stop is on before a tool starts, and
-- whether a result can be packaged.
pub record Surroundings : Type 0 where
  pub lib : TextLib
  pub marshal : Manifest → Bytes
  pub verify : Option (Bytes → Bytes → Bool)
  pub host : Host
  pub stopped : Bytes → Bool
  pub packaged : Bytes → Bool

pub data AgentState : Type 0 where
  is_running has_failed was_killed has_succeeded : AgentState

-- What others see of a run: reports to the gateway, commands on the host, results made up for a
-- missing binary, and uploads.
pub data Effect : Type 0 where
  posts : AgentState → Effect
  executes : Command → Effect
  makes_up : Bytes → Effect
  uploads : Bytes → Effect

-- `Verify` of the verifier: no key and no signature are refused.
unfoldable pub verified : Surroundings → AgentJob → Bool
verified w j = elim w.verify [
  | none ↦ false
  | some check ↦
      not (bytes_equal j.job_signature []) && check (w.marshal j.manifest) j.job_signature
]

unfoldable pub profile_tools : Bytes → List Bytes
profile_tools code =
    if bytes_equal code (codes "internal_standard_va")
    then codes "nmap" ∷ codes "openvas" ∷ codes "nuclei" ∷ []
    else if bytes_equal code (codes "internal_web_va")
    then codes "zap" ∷ codes "nuclei" ∷ []
    else if bytes_equal code (codes "internal_ad_review")
    then codes "bloodhound" ∷ codes "netexec" ∷ []
    else if bytes_equal code (codes "internal_linux_hardening")
    then codes "lynis" ∷ []
    else if bytes_equal code (codes "internal_k8s_review")
    then codes "kube-bench" ∷ codes "kube-hunter" ∷ codes "trivy" ∷ []
    else if bytes_equal code (codes "internal_container_review")
    then codes "trivy" ∷ []
    else codes "nmap" ∷ []

unfoldable pub all_targets_allowed : TextLib → LocalPolicy → List Bytes → Bool
all_targets_allowed lib p [] = true
all_targets_allowed lib p (t ∷ ts) = allows_target lib p t && all_targets_allowed lib p ts

-- An upload is tried for every result that can be packaged; its error is only logged.
abbrev pub upload_of : Surroundings → Bytes → List Effect
upload_of w tool = if w.packaged tool then uploads tool ∷ [] else []

-- The loop over the tools and what follows it. The share of the processor that the policy gives is
-- passed for the cap of `Execute`.
unfoldable pub run_tools : Surroundings → LocalPolicy → List Bytes → List Bytes → List Effect
run_tools w p targets [] = posts has_succeeded ∷ []
run_tools w p targets (tool ∷ tools) =
    let rest = run_tools w p targets tools in
    if w.stopped tool
    then posts was_killed ∷ []
    else elim (run_tool w.host p tool targets p.max_cpu) [
      | tool_not_allowed ↦ rest
      | start_failed ↦ rest
      | synthetic_forbidden ↦ posts has_failed ∷ []
      | fabricated ↦ makes_up tool ∷ (upload_of w tool ++ rest)
      | executed command ↦ executes command ∷ (upload_of w tool ++ rest)
    ]

-- `execute`, under a policy that does not change meanwhile.
unfoldable pub execute : Surroundings → LocalPolicy → AgentJob → List Effect
execute w p j =
    let m = j.manifest in
    if not (verified w j)
      || not (allows_profile p m.profile)
      || not (all_targets_allowed w.lib p m.targets)
    then posts has_failed ∷ []
    else posts is_running ∷ run_tools w p m.targets (profile_tools m.profile)
