-- ===== src/LocalAgent/Runner.antt =====
-- agent/internal/runner/runner.go: what the agent executes for a tool.
use vaultscan.Prelude.{
  ℕ, Bool, ◌||◌, not, List, [], ◌∷◌, ◌++◌, ltb, if◌then◌else◌, Bytes, codes, bytes_equal,
}
use vaultscan.LocalAgent.Policy.{LocalPolicy, listed, allows_tool}

-- allowedTools
abbrev pub known_tools : List Bytes
known_tools =
    codes "nmap"
    ∷ codes "nuclei"
    ∷ codes "zap"
    ∷ codes "openvas"
    ∷ codes "testssl"
    ∷ codes "sslyze"
    ∷ codes "trivy"
    ∷ codes "lynis"
    ∷ codes "bloodhound"
    ∷ codes "netexec"
    ∷ codes "prowler"
    ∷ codes "kube-bench"
    ∷ codes "kube-hunter"
    ∷ codes "amass"
    ∷ codes "subfinder"
    ∷ codes "dnsx"
    ∷ codes "httpx"
    ∷ codes "naabu"
    ∷ codes "ffuf"
    ∷ codes "katana"
    ∷ codes "mobsf"
    ∷ []

-- strings.Join(targets, ",")
unfoldable pub join_comma : List Bytes → Bytes
join_comma [] = []
join_comma (t ∷ []) = t
join_comma (t ∷ (u ∷ rest)) = t ++ codes "," ++ join_comma (u ∷ rest)

unfoldable pub build_args : Bytes → List Bytes → List Bytes
build_args tool targets =
    if bytes_equal tool (codes "nmap")
    then codes "-sV" ∷ codes "-Pn" ∷ codes "-oX" ∷ codes "-" ∷ targets
    else if bytes_equal tool (codes "nuclei")
    then codes "-jsonl" ∷ codes "-silent" ∷ codes "-u" ∷ join_comma targets ∷ []
    else if bytes_equal tool (codes "zap")
    then codes "-quickurl" ∷ join_comma targets ∷ []
    else if bytes_equal tool (codes "trivy")
    then codes "image" ∷ codes "--format" ∷ codes "json" ∷ targets
    else if bytes_equal tool (codes "kube-bench")
    then codes "--json" ∷ []
    else if bytes_equal tool (codes "lynis")
    then codes "audit" ∷ codes "system" ∷ []
    else if bytes_equal tool (codes "testssl")
    then codes "--jsonfile-pretty" ∷ codes "-" ∷ targets
    else if bytes_equal tool (codes "sslyze")
    then codes "--json_out=-" ∷ targets
    else if bytes_equal tool (codes "prowler")
    then codes "aws" ∷ codes "--output-format" ∷ codes "json-ocsf" ∷ []
    else targets

-- A command with its arguments and its cap in seconds.
pub record Command : Type 0 where
  pub tool : Bytes
  pub args : List Bytes
  pub wall_cap : ℕ

pub data Ran : Type 0 where
  tool_not_allowed synthetic_forbidden start_failed fabricated : Ran
  executed : Command → Ran

-- What the host has: the binaries in its PATH, and those of them that start.
pub record Host : Type 0 where
  pub look_path : Bytes → Bool
  pub starts : Bytes → Bool
  pub allow_synthetic : Bool

-- Thirty minutes, unless the cap is positive.
unfoldable pub wall_cap_of : ℕ → ℕ
wall_cap_of max_cpu = if ltb 0 max_cpu then max_cpu else 1_800

-- `Execute` with a policy.
unfoldable pub run_tool : Host → LocalPolicy → Bytes → List Bytes → ℕ → Ran
run_tool h p tool targets max_cpu =
    if not (listed tool known_tools) || not (allows_tool p tool)
    then tool_not_allowed
    else if h.look_path tool
    then (if h.starts tool
        then executed
            (record { tool = tool; args = build_args tool targets; wall_cap = wall_cap_of max_cpu })
        else start_failed)
    else if h.allow_synthetic
    then fabricated
    else synthetic_forbidden
