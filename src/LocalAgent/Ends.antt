-- ===== src/LocalAgent/Ends.antt =====
-- That the agent (agent/cmd/agent/main.go) reports the end of every job, and once.
use vaultscan.Prelude.{
  ◌≡◌, ◌⊎◌, inl, inr, refl, Bool, true, false, ◌||◌, not, List, [], ◌∷◌, ◌++◌, Bytes, Bool-cases,
}
use vaultscan.LocalAgent.Policy.{LocalPolicy, allows_profile}
use vaultscan.LocalAgent.Runner.{run_tool}
use vaultscan.LocalAgent.Execute.{
  AgentJob, Surroundings, Effect, posts, verified, profile_tools, all_targets_allowed, upload_of,
  run_tools, execute, has_succeeded, has_failed, was_killed,
}
use vaultscan.LocalAgent.Gates.{Ran-cases}

abbrev pub closes : Effect → Bool
closes (posts has_failed) = true
closes (posts was_killed) = true
closes (posts has_succeeded) = true
closes _ = false

-- The last effect is the report of a final state, and the only one.
unfoldable pub EndsOnce : List Effect → Type 0
EndsOnce (e ∷ es) = ((closes e ≡ true) × (es ≡ [])) ⊎ ((closes e ≡ false) × EndsOnce es)
EndsOnce [] = ⊥

upload-EndsOnce :
    (w : Surroundings) (tool : Bytes) (rest : List Effect)
    → EndsOnce rest
    → EndsOnce (upload_of w tool ++ rest)
unfolding EndsOnce
upload-EndsOnce w tool rest ends = elim (Bool-cases (w.packaged tool)) [
  | inl packaged ↦ rw packaged (inr (refl, ends))
  | inr failed ↦ rw failed ends
]

run_tools-EndsOnce :
    (w : Surroundings) (p : LocalPolicy) (targets tools : List Bytes)
    → EndsOnce (run_tools w p targets tools)
unfolding run_tools EndsOnce
run_tools-EndsOnce w p targets [] = inl (refl, refl)
run_tools-EndsOnce w p targets (tool ∷ tools) =
    let rest = run_tools-EndsOnce w p targets tools in
    let uploaded = upload-EndsOnce w tool (run_tools w p targets tools) rest in
    elim (Bool-cases (w.stopped tool)) [
      | inl stop ↦ rw stop (inl (refl, refl))
      | inr go ↦ elim (Ran-cases (run_tool w.host p tool targets p.max_cpu)) [
        | inl e ↦ rw (go, e) rest
        | inr (inl e) ↦ rw (go, e) rest
        | inr (inr (inl e)) ↦ rw (go, e) (inl (refl, refl))
        | inr (inr (inr (inl e))) ↦ rw (go, e) (inr (refl, uploaded))
        | inr (inr (inr (inr (c, e)))) ↦ rw (go, e) (inr (refl, uploaded))
      ]
    ]

-- However a job ends, the last thing that the agent does with it is to report that it failed, was
-- killed or succeeded, and it reports no such state before.
pub execute-EndsOnce :
    (w : Surroundings) (p : LocalPolicy) (j : AgentJob) → EndsOnce (execute w p j)
unfolding execute EndsOnce
execute-EndsOnce w p j =
    let m = j.manifest in
    let refused =
      not (verified w j)
      || not (allows_profile p m.profile)
      || not (all_targets_allowed w.lib p m.targets) in
    elim (Bool-cases refused) [
      | inl no_job ↦ rw no_job (inl (refl, refl))
      | inr runs ↦ rw runs (inr (refl, run_tools-EndsOnce w p m.targets (profile_tools m.profile)))
    ]
