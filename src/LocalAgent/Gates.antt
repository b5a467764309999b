-- ===== src/LocalAgent/Gates.antt =====
-- What the agent (agent/cmd/agent/main.go) has checked before it starts a command.
use vaultscan.Prelude.{
  ℕ, ◌≡◌, ◌⊎◌, inl, inr, refl, true, false, List, [], ◌∷◌, ◌++◌, Bytes, arith, All, Bool-cases,
}
use vaultscan.ScopeGuard.Targets.{TextLib}
use vaultscan.LocalAgent.Policy.{LocalPolicy, listed, allows_profile, allows_tool, allows_target}
use vaultscan.LocalAgent.Runner.{
  known_tools, build_args, Command, Ran, tool_not_allowed, synthetic_forbidden, start_failed,
  fabricated, executed, Host, run_tool,
}
use vaultscan.LocalAgent.Execute.{
  AgentJob, Surroundings, Effect, posts, executes, makes_up, uploads, verified, profile_tools,
  all_targets_allowed, upload_of, run_tools, execute,
}

-- Every gate that a command on the host has passed.
pub record IsCleared (w : Surroundings) (p : LocalPolicy) (j : AgentJob) (c : Command)
    : Type 0 where
  pub signed : verified w j ≡ true
  pub profile : allows_profile p j.manifest.profile ≡ true
  pub targets : All (λ t. allows_target w.lib p t ≡ true) j.manifest.targets
  pub known : listed c.tool known_tools ≡ true
  pub tool : allows_tool p c.tool ≡ true
  pub not_stopped : w.stopped c.tool ≡ false
  pub same_targets : c.args ≡ build_args c.tool j.manifest.targets

-- A result is only made up where the host lacks the binary and allows it.
abbrev pub Cleared : Surroundings → LocalPolicy → AgentJob → Effect → Type 0
Cleared w p j (executes c) = IsCleared w p j c
Cleared w p j (makes_up tool) = (w.host.look_path tool ≡ false) × (w.host.allow_synthetic ≡ true)
Cleared w p j (posts state) = Unit
Cleared w p j (uploads tool) = Unit

pub Ran-cases :
    (r : Ran)
    → (r ≡ tool_not_allowed)
      ⊎ ((r ≡ start_failed)
          ⊎ ((r ≡ synthetic_forbidden) ⊎ ((r ≡ fabricated) ⊎ ((c : Command) × (r ≡ executed c)))))
Ran-cases tool_not_allowed = inl refl
Ran-cases start_failed = inr (inl refl)
Ran-cases synthetic_forbidden = inr (inr (inl refl))
Ran-cases fabricated = inr (inr (inr (inl refl)))
Ran-cases (executed c) = inr (inr (inr (inr (c, refl))))

run_tool-executed :
    (h : Host) (p : LocalPolicy) (tool : Bytes) (targets : List Bytes) (max_cpu : ℕ) (c : Command)
    → run_tool h p tool targets max_cpu ≡ executed c
    → (c.tool ≡ tool)
      × (listed tool known_tools ≡ true)
      × (allows_tool p tool ≡ true)
      × (c.args ≡ build_args tool targets)
unfolding run_tool
run_tool-executed h p tool targets max_cpu c e = ground (arith, e)

run_tool-fabricated :
    (h : Host) (p : LocalPolicy) (tool : Bytes) (targets : List Bytes) (max_cpu : ℕ)
    → run_tool h p tool targets max_cpu ≡ fabricated
    → (h.look_path tool ≡ false) × (h.allow_synthetic ≡ true)
unfolding run_tool
run_tool-fabricated h p tool targets max_cpu e = ground (arith, e)

All-targets-All :
    (lib : TextLib) (p : LocalPolicy) (ts : List Bytes)
    → all_targets_allowed lib p ts ≡ true
    → All (λ t. allows_target lib p t ≡ true) ts
unfolding all_targets_allowed
All-targets-All lib p [] h = tt
All-targets-All lib p (t ∷ ts) h = (ground arith, All-targets-All lib p ts (ground arith))

module _ (w : Surroundings) (p : LocalPolicy) (j : AgentJob) where
  upload-Cleared :
      (tool : Bytes) (rest : List Effect)
      → All (Cleared w p j) rest
      → All (Cleared w p j) (upload_of w tool ++ rest)
  upload-Cleared tool rest all = elim (Bool-cases (w.packaged tool)) [
    | inl packaged ↦ rw packaged (tt, all)
    | inr failed ↦ rw failed all
  ]

  run_tools-Cleared :
      (tools : List Bytes)
      → verified w j ≡ true
      → allows_profile p j.manifest.profile ≡ true
      → All (λ t. allows_target w.lib p t ≡ true) j.manifest.targets
      → All (Cleared w p j) (run_tools w p j.manifest.targets tools)
  unfolding run_tools
  run_tools-Cleared [] signed profile targets = (tt, tt)
  run_tools-Cleared (tool ∷ tools) signed profile targets =
      let rest = run_tools-Cleared tools signed profile targets in
      let ran = run_tool w.host p tool j.manifest.targets p.max_cpu in
      elim (Bool-cases (w.stopped tool)) [
        | inl stop ↦ rw stop (tt, tt)
        | inr go ↦ elim (Ran-cases ran) [
          | inl e ↦ rw (go, e) rest
          | inr (inl e) ↦ rw (go, e) rest
          | inr (inr (inl e)) ↦ rw (go, e) (tt, tt)
          | inr (inr (inr (inl e))) ↦
              rw (go, e)
                (
                  run_tool-fabricated w.host p tool j.manifest.targets p.max_cpu e,
                  upload-Cleared tool (run_tools w p j.manifest.targets tools) rest,
                )
          | inr (inr (inr (inr (c, e)))) ↦
              let (same, known, allowed, args) =
                run_tool-executed w.host p tool j.manifest.targets p.max_cpu c e in
              rw (go, e)
                (
                  record {
                    signed = signed;
                    profile = profile;
                    targets = targets;
                    known = rw same known;
                    tool = rw same allowed;
                    not_stopped = rw same go;
                    same_targets = rw same args;
                  },
                  upload-Cleared tool (run_tools w p j.manifest.targets tools) rest,
                )
        ]
      ]

-- The agent starts a command only for a job whose signature its key verifies, whose profile and whose
-- every target the local policy allows, with a tool that both the policy and the list in the binary
-- allow, for the targets of the job, and not while the emergency stop is on; it makes up a result
-- only where the binary is missing and the host allows that.
pub execute-Cleared :
    (w : Surroundings) (p : LocalPolicy) (j : AgentJob) → All (Cleared w p j) (execute w p j)
unfolding execute
execute-Cleared w p j = elim (Bool-cases (verified w j)) [
  | inr unsigned ↦ rw unsigned (tt, tt)
  | inl signed ↦ elim (Bool-cases (allows_profile p j.manifest.profile)) [
    | inr refused ↦ rw (signed, refused) (tt, tt)
    | inl profile ↦ elim (Bool-cases (all_targets_allowed w.lib p j.manifest.targets)) [
      | inr refused ↦ rw (signed, profile, refused) (tt, tt)
      | inl allowed ↦
          let targets = All-targets-All w.lib p j.manifest.targets allowed in
          rw (signed, profile, allowed)
            (tt, run_tools-Cleared w p j (profile_tools j.manifest.profile) signed profile targets)
    ]
  ]
]
