-- ===== src/Findings/Sweeps.antt =====
-- `SweepSLABreaches` (backend/internal/findings/service.go) marks a finding once.
use vaultscan.Prelude.{ℕ, ◌≡◌, ◌≤◌, refl, ap, true, false, List, [], ◌∷◌, map, arith}
use vaultscan.Findings.{Finding, Store}
use vaultscan.Findings.Sla.{breaches, stamp, count_breaches, sweep_sla_breaches}

stamped :
    (now later : ℕ) (f : Finding)
    → now ≤ later
    → breaches now f ≡ true
    → breaches later (stamp now f) ≡ false
unfolding breaches
stamped now later f up e = ground arith

stamp_twice : (now : ℕ) (f : Finding) → stamp now (stamp now f) ≡ stamp now f
unfolding breaches
stamp_twice now f = ground arith

none_left : (now : ℕ) (f : Finding) → breaches now (stamp now f) ≡ false
unfolding breaches
none_left now f = ground arith

map_twice :
    (now : ℕ) (fs : List Finding) → map (stamp now) (map (stamp now) fs) ≡ map (stamp now) fs
map_twice now [] = refl
map_twice now (f ∷ fs) = rw (stamp_twice now f) (ap (λ l. stamp now f ∷ l) (map_twice now fs))

count_twice : (now : ℕ) (fs : List Finding) → count_breaches now (map (stamp now) fs) ≡ 0
unfolding count_breaches
count_twice now [] = refl
count_twice now (f ∷ fs) = ground (arith, none_left now f, count_twice now fs)

-- A second sweep at the same time marks nothing and changes nothing.
pub sweep_twice :
    (now : ℕ) (s : Store)
    → sweep_sla_breaches now (sweep_sla_breaches now s).1 ≡ (0, (sweep_sla_breaches now s).1)
unfolding sweep_sla_breaches
sweep_twice now s = rw (count_twice now s.findings, map_twice now s.findings)
