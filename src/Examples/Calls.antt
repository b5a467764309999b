-- ===== src/Examples/Calls.antt =====
-- Tests of Breaker and its children.
use vaultscan.Prelude.{◌+◌, ◌≡◌, refl, [], ◌∷◌, ◌++◌, true, false}
use vaultscan.Breaker.{closed, open_, half_open, Breaker}
use vaultscan.Breaker.Sequence.{failing_calls, failing_calls-trip}
use vaultscan.Breaker.Threads.{
  Shared, begin, finish, force_close, fresh, run, probes, IsSafe, run-IsSafe, two_probes,
}

abbrev small : Breaker
small = record {
  cfg = record { max_failures = 2; cooldown = 10 };
  state = closed;
  failures = 0;
  opened_at = 0;
}

failing_calls-trip_example :
    ((failing_calls ((1, 2) ∷ []) small).state ≡ closed)
    × (failing_calls (((1, 2) ∷ []) ++ ((3, 4) ∷ [])) small
        ≡ record small { state = open_; failures = 2; opened_at = 4 })
failing_calls-trip_example = failing_calls-trip ((1, 2) ∷ []) 3 4 small refl refl refl

abbrev opened : Breaker
opened = record small { state = open_; failures = 2; opened_at = 4 }

run-IsSafe_example :
    IsSafe (run (fresh small.cfg) (begin 1 ∷ finish 0 2 false ∷ begin 3 ∷ force_close ∷ []))
run-IsSafe_example = run-IsSafe small.cfg (begin 1 ∷ finish 0 2 false ∷ begin 3 ∷ force_close ∷ [])

abbrev probing : Shared
probing = record { breaker = record small { state = half_open }; running = false ∷ true ∷ [] }

two_probes_example : probes (run probing (finish 0 5 false ∷ begin (5 + 10) ∷ [])).running ≡ 2
two_probes_example = two_probes probing 5 refl refl
