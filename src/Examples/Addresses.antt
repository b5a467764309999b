-- ===== src/Examples/Addresses.antt =====
-- Tests of Shield and its children.
use vaultscan.Prelude.{ℕ, ◌+◌, ◌≤◌, ◌<◌, ◌≡◌, ◌≢◌, refl, some, [], ◌∷◌, arith, true, false, leb}
use vaultscan.Shield.{Shield, Tables, nothing, record_failure, recent, is_locked, sweep_expired}
use vaultscan.Shield.Locks.{record_failure-locks, record_failure_trips, sweep_expired_unseen}

abbrev two_in_ten : Shield
two_in_ten = record { threshold = 2; window = 10; lock_for = 20 }

abbrev one_failure : Tables
one_failure = record {
  failures = record { ip = 7; email = []; occurred_at = 95 } ∷ [];
  lockouts = [];
}

second_trips : (record_failure two_in_ten nothing 100 (some 7) [] one_failure).0 ≡ (true, false)
unfolding record_failure recent
second_trips = refl

record_failure-locks_example :
    let s' = (record_failure two_in_ten nothing 100 (some 7) [] one_failure).1 in
    ((t : ℕ) → t < 120 → (u : ℕ) × (is_locked t (some 7) s' ≡ some u) × (120 ≤ u))
    × ((t other : ℕ)
        → other ≢ 7
        → is_locked t (some other) s' ≡ is_locked t (some other) one_failure)
record_failure-locks_example =
    record_failure-locks two_in_ten nothing 100 7 [] one_failure second_trips

second_failure_trips :
    (record_failure two_in_ten nothing 100 (some 7) [] one_failure).0
    ≡ (leb 2 (recent 7 90 one_failure.failures + 1), false)
second_failure_trips = record_failure_trips two_in_ten 100 7 [] one_failure

sweep_expired_unseen_example :
    (is_locked 130 (some 7) (sweep_expired two_in_ten 120 one_failure)
      ≡ is_locked 130 (some 7) one_failure)
    × (recent 7 120 (sweep_expired two_in_ten 120 one_failure).failures
        ≡ recent 7 120 one_failure.failures)
sweep_expired_unseen_example = sweep_expired_unseen two_in_ten 120 130 7 one_failure (omega arith)
