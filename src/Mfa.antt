-- ===== src/Mfa.antt =====
-- backend/internal/auth/totp.go: the second factor of a login, a TOTP code or a recovery code.
pub mod Totp
pub mod Lockout
pub mod Recovery
use mathlib.Core.Option
use vaultscan.Prelude.{
  ℕ, ◌+◌, ◌-◌, Bool, true, false, Option, none, some, List, [], ◌∷◌, ltb, leb, ◌==◌, if◌then◌else◌,
  Bytes,
}
use vaultscan.Prelude.Result.{Result, ok, err}
use vaultscan.Mfa.Totp.{MfaLib, verify_totp}

-- A row of user_mfa; times are nanoseconds since 1970. A recovery code that was used is empty.
pub record Account : Type 0 where
  pub secret : Bytes
  pub last_used_counter : ℕ
  pub locked_until : Option ℕ
  pub failed_count : ℕ
  pub failed_start : Option ℕ
  pub recovery_codes : List Bytes
  pub recovery_codes_left : ℕ
  pub last_verified_at : Option ℕ

pub data MfaError : Type 0 where
  not_enrolled locked code_invalid database : MfaError

abbrev pub max_failed_attempts : ℕ
max_failed_attempts = 5

abbrev pub fail_window : ℕ
fail_window = 900_000_000_000

abbrev pub lockout_duration : ℕ
lockout_duration = 900_000_000_000

abbrev pub is_locked : ℕ → Option ℕ → Bool
is_locked now none = false
is_locked now (some until) = ltb now until

-- The failures that still count: those of a window that is not over.
abbrev pub window_over : ℕ → Option ℕ → Bool
window_over now none = false
window_over now (some start) = ltb fail_window (now - start)

abbrev pub start_or : ℕ → Option ℕ → ℕ
start_or now none = now
start_or now (some start) = start

-- `recordFailure`, whose UPDATE succeeds.
unfoldable pub record_failure : ℕ → Option ℕ → ℕ → Account → MfaError × Account
record_failure count start now a =
    if leb max_failed_attempts (count + 1)
    then (
      locked,
      record a {
        failed_count = 0;
        failed_start = none;
        locked_until = some (now + lockout_duration);
      },
    )
    else (
      code_invalid,
      record a {
        failed_count = count + 1;
        failed_start = some (start_or now start);
        locked_until = none;
      },
    )

-- strings.ReplaceAll(code, "-", "")
unfoldable pub without_dashes : Bytes → Bytes
without_dashes [] = []
without_dashes (c ∷ s) = let rest = without_dashes s in if c == b'-' then rest else c ∷ rest

abbrev pub is_blank : Bytes → Bool
is_blank [] = true
is_blank (c ∷ s) = false

-- Which UPDATEs of `Verify` succeed: the one that stores what was accepted, and the one that clears
-- the failures after a recovery code.
pub record Writes : Type 0 where
  pub accepts : Bool
  pub clears : Bool

abbrev pub all_written : Writes
all_written = record { accepts = true; clears = true }

module _ (lib : MfaLib) where
  -- The loop of `consumeRecoveryCode`: the first slot that matches is cleared.
  unfoldable pub consume : Bytes → List Bytes → Option (List Bytes)
  consume code [] = none
  consume code (h ∷ hs) =
      let others = Option.map (λ (l : List Bytes). h ∷ l) (consume code hs) in
      if is_blank h
      then others
      else if lib.compare_hash_and_password h code
      then some ([] ∷ hs)
      else others

  -- `consumeRecoveryCode`: a code that matches is accepted even if its UPDATE fails.
  unfoldable pub consume_recovery_code : Writes → ℕ → Bytes → Account → Option Account
  consume_recovery_code w now code a =
      Option.map
        (λ (codes : List Bytes).
          if w.accepts
          then record a {
            recovery_codes = codes;
            recovery_codes_left = a.recovery_codes_left - 1;
            last_verified_at = some now;
          }
          else a)
        (consume (lib.to_upper (without_dashes code)) a.recovery_codes)

  abbrev pub cleared : Account → Account
  cleared a = record a { failed_count = 0; failed_start = none; locked_until = none }

  abbrev pub refuse : MfaError × Account → Result MfaError (Unit {0}) × Account
  refuse (e, a) = (err e, a)

  abbrev pub accept_counter : ℕ → ℕ → Account → Account
  accept_counter now c a = record (cleared a) { last_used_counter = c; last_verified_at = some now }

  -- `Verify` behind the decryption of the secret, with the failures that count.
  unfoldable pub check_code :
      Writes → ℕ → Bytes → Bytes → ℕ → Option ℕ → Account → Result MfaError (Unit {0}) × Account
  check_code w now code secret count start a = elim (verify_totp lib secret code now) [
    | some c ↦
        if ltb a.last_used_counter c
        then (if w.accepts then (ok tt, accept_counter now c a) else (err database, a))
        else refuse (record_failure count start now a)
    | none ↦ elim (consume_recovery_code w now code a) [
      | some a' ↦ (ok tt, if w.clears then cleared a' else a')
      | none ↦ refuse (record_failure count start now a)
    ]
  ]

  -- `Verify` of a user that has the row `a`.
  unfoldable pub verify_with : Writes → ℕ → Bytes → Account → Result MfaError (Unit {0}) × Account
  verify_with w now code a =
      let over = window_over now a.failed_start in
      let count = if over then 0 else a.failed_count in
      let start = if over then none else a.failed_start in
      if is_locked now a.locked_until then (err locked, a) else elim (lib.open_secret a.secret) [
        | none ↦ (err not_enrolled, a)
        | some secret ↦ check_code w now code secret count start a
      ]

  -- `Verify` where every UPDATE succeeds.
  unfoldable pub verify : ℕ → Bytes → Account → Result MfaError (Unit {0}) × Account
  verify now code a = verify_with all_written now code a

  -- `ConfirmEnrollment`: the row, and whether users.mfa_status becomes enrolled.
  unfoldable pub confirm_enrollment :
      ℕ → Bytes → Account → Result MfaError (Unit {0}) × Account × Bool
  confirm_enrollment now code a = elim (lib.open_secret a.secret) [
    | none ↦ (err not_enrolled, a, false)
    | some secret ↦ elim (verify_totp lib secret code now) [
      | none ↦ (err code_invalid, a, false)
      | some c ↦ (ok tt, accept_counter now c a, true)
    ]
  ]
