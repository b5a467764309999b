-- ===== src/Shield.antt =====
-- backend/internal/auth/bruteforce.go: the shield that locks an address after too many failed logins.
pub mod Locks
use vaultscan.Prelude.{
  ℕ, ◌+◌, ◌-◌, ◌*◌, Bool, true, false, ◌&&◌, not, Option, none, some, List, [], ◌∷◌, ◌++◌, ltb, leb,
  ◌==◌, if◌then◌else◌, Bytes,
}
use Prim.Native.Nat.{max}

-- Times and durations in nanoseconds; an address is a number.
pub record Shield : Type 0 where
  pub threshold : ℕ
  pub window : ℕ
  pub lock_for : ℕ

abbrev pub new_shield : Shield
new_shield = record { threshold = 25; window = 900_000_000_000; lock_for = 900_000_000_000 }

-- A row of auth_ip_failures, and one of auth_ip_lockouts.
pub record Failure : Type 0 where
  pub ip : ℕ
  pub email : Bytes
  pub occurred_at : ℕ

pub record Lockout : Type 0 where
  pub ip : ℕ
  pub locked_until : ℕ
  pub failures : ℕ

pub record Tables : Type 0 where
  pub failures : List Failure
  pub lockouts : List Lockout

-- The statement of `RecordFailure` that fails, if one does.
pub data Failing : Type 0 where
  nothing insert count lock : Failing

-- WHERE ip = $1 AND occurred_at >= $2
unfoldable pub recent : ℕ → ℕ → List Failure → ℕ
recent ip since [] = 0
recent ip since (f ∷ fs) =
    let others = recent ip since fs in
    if (f.ip == ip) && leb since f.occurred_at then others + 1 else others

-- INSERT … ON CONFLICT (ip) DO UPDATE with GREATEST
unfoldable pub lock_ip : ℕ → ℕ → ℕ → List Lockout → List Lockout
lock_ip ip until n [] = record { ip = ip; locked_until = until; failures = n } ∷ []
lock_ip ip until n (l ∷ ls) =
    let others = lock_ip ip until n ls in
    if l.ip == ip
    then record l { locked_until = max l.locked_until until; failures = n } ∷ ls
    else l ∷ others

-- `RecordFailure`: whether the address is over the threshold, whether an error comes back, and the
-- tables.
unfoldable pub record_failure :
    Shield → Failing → ℕ → Option ℕ → Bytes → Tables → (Bool × Bool) × Tables
record_failure b failing now none email s = ((false, false), s)
record_failure b insert now (some ip) email s = ((false, true), s)
record_failure b count now (some ip) email s = (
  (false, true),
  record s { failures = s.failures ++ (record { ip = ip; email = email; occurred_at = now } ∷ []) },
)
record_failure b failing now (some ip) email s =
    let stored = s.failures ++ (record { ip = ip; email = email; occurred_at = now } ∷ []) in
    let n = recent ip (now - b.window) stored in
    if ltb n b.threshold then ((false, false), record s { failures = stored }) else elim failing [
      | lock ↦ ((true, true), record s { failures = stored })
      | _ ↦ (
        (true, false),
        record s { failures = stored; lockouts = lock_ip ip (now + b.lock_for) n s.lockouts },
      )
    ]

-- WHERE ip = $1 AND locked_until > now()
unfoldable pub locked_row : ℕ → ℕ → List Lockout → Option ℕ
locked_row now ip [] = none
locked_row now ip (l ∷ ls) =
    let others = locked_row now ip ls in
    if (l.ip == ip) && ltb now l.locked_until then some l.locked_until else others

-- `IsLocked`: when the lockout ends, `none` if there is none.
unfoldable pub is_locked : ℕ → Option ℕ → Tables → Option ℕ
is_locked now none s = none
is_locked now (some ip) s = locked_row now ip s.lockouts

unfoldable pub without_ip : ℕ → List Lockout → List Lockout
without_ip ip [] = []
without_ip ip (l ∷ ls) = let others = without_ip ip ls in if l.ip == ip then others else l ∷ others

-- `Unlock`: whether an error comes back.
unfoldable pub unlock : Option ℕ → Tables → Bool × Tables
unlock none s = (true, s)
unlock (some ip) s = (false, record s { lockouts = without_ip ip s.lockouts })

unfoldable pub live : ℕ → List Lockout → List Lockout
live now [] = []
live now (l ∷ ls) =
    let others = live now ls in if ltb l.locked_until now then others else l ∷ others

unfoldable pub young : ℕ → List Failure → List Failure
young since [] = []
young since (f ∷ fs) =
    let others = young since fs in if ltb f.occurred_at since then others else f ∷ others

-- `SweepExpired`, both of whose statements succeed.
unfoldable pub sweep_expired : Shield → ℕ → Tables → Tables
sweep_expired b now s = record {
  failures = young (now - 2 * b.window) s.failures;
  lockouts = live now s.lockouts;
}
