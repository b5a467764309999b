-- ===== src/Mfa/Lockout.antt =====
-- The lockout of `Verify` (backend/internal/auth/totp.go) and its protection against replay.

use vaultscan.Prelude.{
  ℕ, ◌+◌, ◌-◌, ◌≤◌, ◌<◌, ◌≡◌, refl, ap, ◌∙◌, false, Option, none, some, List, [], ◌∷◌, ◌++◌, length,
  leb, Bytes, arith, All,
}
use vaultscan.Prelude.Result.{err}
use vaultscan.Mfa.Totp.{MfaLib, verify_totp}
use vaultscan.Mfa.{
  Account, locked, fail_window, lockout_duration, max_failed_attempts, record_failure, consume,
  consume_recovery_code, check_code, all_written, verify, verify_with, without_dashes,
}

module _ (lib : MfaLib) where
  -- A code that no window and no recovery slot accepts.
  pub record Misses (secret : Bytes) (codes : List Bytes) (now : ℕ) (code : Bytes) : Type 0 where
    pub no_window : verify_totp lib secret code now ≡ none
    pub no_slot : consume lib (lib.to_upper (without_dashes code)) codes ≡ none

  missed :
      (secret : Bytes) (a : Account) (now : ℕ) (code : Bytes) (count : ℕ) (start : Option ℕ)
      → Misses secret a.recovery_codes now code
      → (check_code lib all_written now code secret count start a).1
        ≡ (record_failure count start now a).1
  unfolding check_code consume_recovery_code
  missed secret a now code count start m = rw (m.no_window, m.no_slot, check_code) refl

  -- Failures up to the limit, counted from the first.
  guess :
      (secret : Bytes) (a : Account) (now : ℕ) (code : Bytes) (first : ℕ)
      → lib.open_secret a.secret ≡ some secret
      → a.locked_until ≡ none
      → a.failed_start ≡ some first
      → now - first ≤ fail_window
      → Misses secret a.recovery_codes now code
      → (verify lib now code a).1 ≡ (record_failure a.failed_count (some first) now a).1
  unfolding verify verify_with
  guess secret a now code first o l s w m =
      ground (arith, missed secret a now code a.failed_count (some first) m)

  guess_first :
      (secret : Bytes) (a : Account) (now : ℕ) (code : Bytes)
      → lib.open_secret a.secret ≡ some secret
      → a.locked_until ≡ none
      → a.failed_start ≡ none
      → Misses secret a.recovery_codes now code
      → (verify lib now code a).1 ≡ (record_failure a.failed_count none now a).1
  unfolding verify verify_with
  guess_first secret a now code o l s m =
      ground (arith, missed secret a now code a.failed_count none m)

  -- The row after attempts, each a time and a code.
  pub guesses : List (ℕ × Bytes) → Account → Account
  guesses [] a = a
  guesses ((now, code) ∷ gs) a = guesses gs (verify lib now code a).1

  counted :
      (secret : Bytes) (first : ℕ) (gs : List (ℕ × Bytes)) (a : Account)
      → lib.open_secret a.secret ≡ some secret
      → a.locked_until ≡ none
      → a.failed_start ≡ some first
      → a.failed_count + length gs < 5
      → All
          (λ (g : ℕ × Bytes). (g.0 - first ≤ fail_window) × Misses secret a.recovery_codes g.0 g.1)
          gs
      → guesses gs a ≡ record a { failed_count = a.failed_count + length gs }
  unfolding guesses record_failure
  counted secret first [] a o l s n all = ground arith
  counted secret first ((now, code) ∷ gs) a o l s n all =
      let here = guess secret a now code first o l s all.0.0 all.0.1 in
      let a' = record a { failed_count = a.failed_count + 1 } in
      let below : leb max_failed_attempts (a.failed_count + 1) ≡ false = ground arith in
      let kept : record a {
        failed_count = a.failed_count + 1;
        failed_start = some first;
        locked_until = none;
      }
          ≡ a' =
        ground arith in
      let next : (verify lib now code a).1 ≡ a' = (rw below at here) ∙ kept in
      rw next (ground (arith, counted secret first gs a' o l s (omega arith) all.1))

  guesses-snoc :
      (gs : List (ℕ × Bytes)) (now : ℕ) (code : Bytes) (a : Account)
      → guesses (gs ++ ((now, code) ∷ [])) a ≡ (verify lib now code (guesses gs a)).1
  unfolding guesses
  guesses-snoc [] now code a = refl
  guesses-snoc ((n, c) ∷ gs) now code a = guesses-snoc gs now code (verify lib n c a).1

  shut :
      (now until : ℕ) (code : Bytes) (a : Account)
      → a.locked_until ≡ some until
      → now < until
      → verify lib now code a ≡ (err locked, a)
  unfolding verify verify_with
  shut now until code a l h = ground arith

  first_guess :
      (secret : Bytes) (a : Account) (now : ℕ) (code : Bytes)
      → lib.open_secret a.secret ≡ some secret
      → a.locked_until ≡ none
      → a.failed_start ≡ none
      → a.failed_count ≡ 0
      → Misses secret a.recovery_codes now code
      → (verify lib now code a).1 ≡ record a { failed_count = 1; failed_start = some now }
  unfolding record_failure
  first_guess secret a now code o l s z m =
      let here = guess_first secret a now code o l s m in ground (arith, here)

  fifth :
      (secret : Bytes) (a : Account) (now : ℕ) (code : Bytes) (first : ℕ)
      → lib.open_secret a.secret ≡ some secret
      → a.locked_until ≡ none
      → a.failed_start ≡ some first
      → now - first ≤ fail_window
      → a.failed_count ≡ 4
      → Misses secret a.recovery_codes now code
      → (verify lib now code a).1 ≡ record a {
        failed_count = 0;
        failed_start = none;
        locked_until = some (now + lockout_duration);
      }
  unfolding record_failure
  fifth secret a now code first o l s w n m =
      let here = guess secret a now code first o l s w m in ground (arith, here)

  -- Five wrong codes within 15 minutes of the first, for an account with no failures on record: the
  -- first four leave it open, the fifth locks it, and for 15 minutes from then on every attempt, with
  -- a right code too, is refused and changes nothing.
  pub five_guesses_lock :
      (secret : Bytes) (a : Account) (first : ℕ) (code : Bytes) (gs : List (ℕ × Bytes)) (last : ℕ)
      (wrong : Bytes)
      → lib.open_secret a.secret ≡ some secret
      → a.locked_until ≡ none
      → a.failed_start ≡ none
      → a.failed_count ≡ 0
      → length gs ≡ 3
      → Misses secret a.recovery_codes first code
      → All
          (λ (g : ℕ × Bytes). (g.0 - first ≤ fail_window) × Misses secret a.recovery_codes g.0 g.1)
          gs
      → last - first ≤ fail_window
      → Misses secret a.recovery_codes last wrong
      → ((guesses ((first, code) ∷ gs) a).locked_until ≡ none)
        × ((now : ℕ) (right : Bytes)
            → now < last + lockout_duration
            → let shut_out = guesses (((first, code) ∷ gs) ++ ((last, wrong) ∷ [])) a in
              verify lib now right shut_out ≡ (err locked, shut_out))
  unfolding guesses
  five_guesses_lock secret a first code gs last wrong o l s z n m all w m' =
      let one = record a { failed_count = 1; failed_start = some first } in
      let four = record one { failed_count = 1 + length gs } in
      let start = first_guess secret a first code o l s z m in
      let opened : guesses gs (verify lib first code a).1 ≡ four =
        rw start (counted secret first gs one o l refl (omega arith) all) in
      let end = guesses-snoc gs last wrong (verify lib first code a).1 in
      let closed = fifth secret four last wrong first o l refl w (omega arith) m' in
      let locked_at : guesses (gs ++ ((last, wrong) ∷ [])) (verify lib first code a).1
          ≡ record four {
            failed_count = 0;
            failed_start = none;
            locked_until = some (last + lockout_duration);
          } =
        end ∙ ap (λ x. (verify lib last wrong x).1) opened ∙ closed in
      (
        rw opened l,
        λ now right h.
            shut now (last + lockout_duration) right _ (ap (λ x. x.locked_until) locked_at) h,
      )
