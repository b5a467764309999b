-- ===== src/Breaker/Sequence.antt =====
-- The breaker (backend/internal/circuitbreaker/breaker.go) under calls that do not overlap.
use vaultscan.Prelude.{
  ℕ, ◌+◌, ◌-◌, ◌≤◌, ◌<◌, ◌≡◌, refl, ◌∙◌, ap, ◌++◌, Bool, true, false, List, [], ◌∷◌, leb,
  if◌then◌else◌, arith, length,
}
use vaultscan.Breaker.{
  closed, open_, Config, Breaker, new, record_outcome, reset, admit, call, result, breaker_open,
}

-- What holds between two calls: while it is closed fewer failures than the limit are counted.
pub record IsSound (b : Breaker) : Type 0 where
  pub limit : 0 < b.cfg.max_failures
  pub under_limit : b.state ≡ closed → b.failures < b.cfg.max_failures

pub new-IsSound : (cfg : Config) → IsSound (new cfg)
unfolding new
new-IsSound cfg = ground arith

pub record_outcome-IsSound :
    (now : ℕ) (ok : Bool) (b : Breaker) → IsSound b → IsSound (record_outcome now ok b).0
unfolding record_outcome
record_outcome-IsSound now true b s = ground arith
record_outcome-IsSound now false b s = ground arith

pub admit-IsSound : (now : ℕ) (b : Breaker) → IsSound b → IsSound (admit now b).0
unfolding admit
admit-IsSound now b s = ground arith

pub reset-IsSound : (b : Breaker) → IsSound b → IsSound (reset b).0
unfolding reset
reset-IsSound b s = ground arith

-- Calls that fail, one after the other, at the given start and end times.
pub failing_calls : List (ℕ × ℕ) → Breaker → Breaker
failing_calls [] b = b
failing_calls ((now, later) ∷ ts) b = failing_calls ts (call now later false b).0

counted_one :
    (now later : ℕ) (b : Breaker)
    → b.state ≡ closed
    → b.failures + 1 < b.cfg.max_failures
    → (call now later false b).0 ≡ record b { failures = b.failures + 1 }
unfolding call admit record_outcome
counted_one now later b c h = ground arith

trips :
    (now later : ℕ) (b : Breaker)
    → b.state ≡ closed
    → b.cfg.max_failures ≤ b.failures + 1
    → (call now later false b).0
      ≡ record b { state = open_; failures = b.failures + 1; opened_at = later }
unfolding call admit record_outcome
trips now later b c h = ground arith

-- Fewer failures than the limit leave the breaker closed, and each is counted.
pub failing_calls-eq :
    (ts : List (ℕ × ℕ)) (b : Breaker)
    → b.state ≡ closed
    → b.failures + length ts < b.cfg.max_failures
    → failing_calls ts b ≡ record b { failures = b.failures + length ts }
unfolding failing_calls
failing_calls-eq [] b c h = ground arith
failing_calls-eq ((now, later) ∷ ts) b c h =
    let b' = record b { failures = b.failures + 1 } in
    rw (counted_one now later b c (omega arith))
      (ground (arith, failing_calls-eq ts b' c (omega arith)))

failing_calls-snoc :
    (ts : List (ℕ × ℕ)) (now later : ℕ) (b : Breaker)
    → failing_calls (ts ++ ((now, later) ∷ [])) b ≡ (call now later false (failing_calls ts b)).0
unfolding failing_calls
failing_calls-snoc [] now later b = refl
failing_calls-snoc ((n, l) ∷ ts) now later b = failing_calls-snoc ts now later (call n l false b).0

-- The limit-th failure in a row, and none before it, opens a closed breaker that has counted none,
-- at the time at which that call ends.
pub failing_calls-trip :
    (ts : List (ℕ × ℕ)) (now later : ℕ) (b : Breaker)
    → b.state ≡ closed
    → b.failures ≡ 0
    → length ts + 1 ≡ b.cfg.max_failures
    → ((failing_calls ts b).state ≡ closed)
      × (failing_calls (ts ++ ((now, later) ∷ [])) b
          ≡ record b { state = open_; failures = b.cfg.max_failures; opened_at = later })
failing_calls-trip ts now later b c z n =
    let before = failing_calls-eq ts b c (omega arith) in
    (
      ap (λ (x : Breaker). x.state) before ∙ c,
      failing_calls-snoc ts now later b
          ∙ ap (λ (x : Breaker). (call now later false x).0) before
          ∙ trips now later (record b { failures = b.failures + length ts }) c (omega arith)
          ∙ ground arith,
    )

-- Every call of a breaker that opened: while the cool-down lasts it is refused and changes nothing;
-- after that one probe runs, which closes the breaker and clears the count if it succeeds, and
-- starts the cool-down anew if it fails.
pub call-open :
    (now later : ℕ) (ok : Bool) (b : Breaker)
    → b.state ≡ open_
    → call now later ok b ≡ (
        if leb b.cfg.cooldown (now - b.opened_at)
        then (if ok
            then (record b { state = closed; failures = 0 }, result true)
            else (record b { failures = b.failures + 1; opened_at = later }, result false))
        else (b, breaker_open))
unfolding call admit record_outcome
call-open now later true b o = ground arith
call-open now later false b o = ground arith
