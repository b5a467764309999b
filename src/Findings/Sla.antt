-- ===== src/Findings/Sla.antt =====
-- `SweepSLABreaches` (backend/internal/findings/service.go).
use vaultscan.Prelude.{
  ℕ, ◌+◌, Bool, true, false, ◌&&◌, not, Option, none, some, List, [], ◌∷◌, map, ltb, if◌then◌else◌,
}
use vaultscan.Findings.Lifecycle.{
  Status, risk_accepted, false_positive, remediated, retest_passed, closed,
}
use vaultscan.Findings.{Finding, Store}

abbrev pub settled : Status → Bool
settled closed = true
settled remediated = true
settled retest_passed = true
settled false_positive = true
settled risk_accepted = true
settled _ = false

abbrev pub before : Option ℕ → ℕ → Bool
before none now = false
before (some t) now = ltb t now

abbrev pub is_none : Option ℕ → Bool
is_none none = true
is_none (some t) = false

-- The WHERE of `SweepSLABreaches`.
unfoldable pub breaches : ℕ → Finding → Bool
breaches now f = before f.due_at now && is_none f.sla_breached_at && not (settled f.status)

abbrev pub stamp : ℕ → Finding → Finding
stamp now f = if breaches now f then record f { sla_breached_at = some now } else f

unfoldable pub count_breaches : ℕ → List Finding → ℕ
count_breaches now [] = 0
count_breaches now (f ∷ fs) =
    let others = count_breaches now fs in if breaches now f then others + 1 else others

-- `SweepSLABreaches` at the time `now`: how many are freshly marked.
unfoldable pub sweep_sla_breaches : ℕ → Store → ℕ × Store
sweep_sla_breaches now s =
    (count_breaches now s.findings, record s { findings = map (stamp now) s.findings })
