-- ===== src/Shield/Locks.antt =====
-- What the shield (backend/internal/auth/bruteforce.go) locks and for how long, and that its sweep is not
-- seen.
use Prim.Native.Nat.{max}
use vaultscan.Prelude.{
  ℕ, ◌+◌, ◌-◌, ◌*◌, ◌≤◌, ◌<◌, ◌≡◌, ◌≢◌, inl, inr, refl, true, false, some, List, [], ◌∷◌, ◌++◌, ltb,
  leb, ◌==◌, Bytes, arith, Bool-cases,
}
use vaultscan.Shield.{
  Shield, Failure, Lockout, Tables, Failing, nothing, insert, count, lock, recent, lock_ip,
  record_failure, locked_row, is_locked, live, young, sweep_expired,
}

lock_ip-locks :
    (ip until n t : ℕ) (ls : List Lockout)
    → t < until
    → (u : ℕ) × (locked_row t ip (lock_ip ip until n ls) ≡ some u) × (until ≤ u)
unfolding lock_ip locked_row
lock_ip-locks ip until n t [] h = (until, ground arith, omega arith)
lock_ip-locks ip until n t (l ∷ ls) h = elim (Bool-cases (l.ip == ip)) [
  | inl same ↦ (max l.locked_until until, ground arith, omega arith)
  | inr other ↦ let (u, e, up) = lock_ip-locks ip until n t ls h in (u, ground (arith, e), up)
]

lock_ip-other :
    (ip until n t other : ℕ) (ls : List Lockout)
    → other ≢ ip
    → locked_row t other (lock_ip ip until n ls) ≡ locked_row t other ls
unfolding lock_ip locked_row
lock_ip-other ip until n t other [] h = ground arith
lock_ip-other ip until n t other (l ∷ ls) h = ground (arith, lock_ip-other ip until n t other ls h)

-- If `RecordFailure` reports without an error that the address is locked, then the address is locked
-- at every time before the end of the lockout, and not for less; no other address is touched.
pub record_failure-locks :
    (b : Shield) (failing : Failing) (now ip : ℕ) (email : Bytes) (s : Tables)
    → (record_failure b failing now (some ip) email s).0 ≡ (true, false)
    → let s' = (record_failure b failing now (some ip) email s).1 in
      ((t : ℕ)
        → t < now + b.lock_for
        → (u : ℕ) × (is_locked t (some ip) s' ≡ some u) × (now + b.lock_for ≤ u))
      × ((t other : ℕ) → other ≢ ip → is_locked t (some other) s' ≡ is_locked t (some other) s)
unfolding record_failure is_locked
record_failure-locks b insert now ip email s e = absurd (cc)
record_failure-locks b count now ip email s e = absurd (cc)
record_failure-locks b lock now ip email s e = absurd (ground arith)
record_failure-locks b nothing now ip email s e =
    let stored = s.failures ++ (record { ip = ip; email = email; occurred_at = now } ∷ []) in
    let n = recent ip (now - b.window) stored in
    elim (Bool-cases (ltb n b.threshold)) [
      | inl few ↦ absurd (ground arith)
      | inr many ↦ (
        λ t h. rw (many, record_failure) (lock_ip-locks ip (now + b.lock_for) n t s.lockouts h),
        λ t other h.
            rw (many, record_failure) (lock_ip-other ip (now + b.lock_for) n t other s.lockouts h),
      )
    ]

live-locked :
    (now t ip : ℕ) (ls : List Lockout)
    → now ≤ t
    → locked_row t ip (live now ls) ≡ locked_row t ip ls
unfolding live locked_row
live-locked now t ip [] h = refl
live-locked now t ip (l ∷ ls) h = ground (arith, live-locked now t ip ls h)

young-recent :
    (old since ip : ℕ) (fs : List Failure)
    → old ≤ since
    → recent ip since (young old fs) ≡ recent ip since fs
unfolding young recent
young-recent old since ip [] h = refl
young-recent old since ip (f ∷ fs) h = ground (arith, young-recent old since ip fs h)

-- A sweep changes nothing that a later call sees: neither which addresses are locked and until when,
-- nor how many failures count.
pub sweep_expired_unseen :
    (b : Shield) (now t ip : ℕ) (s : Tables)
    → now ≤ t
    → (is_locked t (some ip) (sweep_expired b now s) ≡ is_locked t (some ip) s)
      × (recent ip (t - b.window) (sweep_expired b now s).failures
          ≡ recent ip (t - b.window) s.failures)
unfolding is_locked sweep_expired
sweep_expired_unseen b now t ip s h = (
  live-locked now t ip s.lockouts h,
  young-recent (now - 2 * b.window) (t - b.window) ip s.failures (omega arith),
)

recent-snoc :
    (ip since now : ℕ) (email : Bytes) (fs : List Failure)
    → since ≤ now
    → recent ip since (fs ++ (record { ip = ip; email = email; occurred_at = now } ∷ []))
      ≡ recent ip since fs + 1
unfolding recent
recent-snoc ip since now email [] h = ground arith
recent-snoc ip since now email (f ∷ fs) h = ground (arith, recent-snoc ip since now email fs h)

-- With no failing statement, `RecordFailure` reports a lockout exactly if this failure and those that
-- were stored for the address within the window make up the threshold.
pub record_failure_trips :
    (b : Shield) (now ip : ℕ) (email : Bytes) (s : Tables)
    → (record_failure b nothing now (some ip) email s).0
      ≡ (leb b.threshold (recent ip (now - b.window) s.failures + 1), false)
unfolding record_failure
record_failure_trips b now ip email s =
    ground (arith, recent-snoc ip (now - b.window) now email s.failures (omega arith))
