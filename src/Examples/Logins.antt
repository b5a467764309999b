-- ===== src/Examples/Logins.antt =====
-- Tests of Mfa and its children, with a digest that copies the counter.
use vaultscan.Prelude.{
  ℕ, true, false, List, ◌+◌, ◌/◌, ◌≤◌, ◌<◌, ◌≡◌, ◌⊎◌, refl, none, some, [], ◌∷◌, ◌++◌, arith, false,
  Bytes, codes, bytes_equal,
}
use vaultscan.Prelude.Result.{ok, err}
use vaultscan.Mfa.Totp.{
  MfaLib, hotp, big_endian, byte_at, six_digits, truncate, try_counter, verify_totp,
}
use vaultscan.Mfa.{
  Account, Writes, locked, is_locked, verify, verify_with, check_code, consume,
  consume_recovery_code, without_dashes, lockout_duration,
}
use vaultscan.Mfa.Lockout.{Misses, guesses, five_guesses_lock}
use vaultscan.Mfa.Recovery.{FirstSlot, verify_spends}

abbrev zeros : Bytes
zeros = 0 ∷ 0 ∷ 0 ∷ 0 ∷ 0 ∷ 0 ∷ 0 ∷ 0 ∷ 0 ∷ 0 ∷ 0 ∷ 0 ∷ []

abbrev toy : MfaLib
toy = record {
  hmac_sha1 = λ key text. text ++ zeros;
  open_secret = λ wrapped. some wrapped;
  compare_hash_and_password = bytes_equal;
  trim_space = λ s. s;
  to_upper = λ s. s;
}

abbrev account : Account
account = record {
  secret = codes "key";
  last_used_counter = 1;
  locked_until = none;
  failed_count = 0;
  failed_start = none;
  recovery_codes = codes "AB" ∷ [] ∷ codes "CD" ∷ [];
  recovery_codes_left = 2;
  last_verified_at = none;
}

abbrev minute_and_half : ℕ
minute_and_half = 90_000_000_000

-- The window before the current one.
accepted :
    verify toy minute_and_half (codes "000000") account
    ≡ (ok tt, record account { last_used_counter = 2; last_verified_at = some minute_and_half })
unfolding verify verify_with check_code verify_totp try_counter hotp big_endian byte_at six_digits
    truncate
accepted = refl

recovered :
    (verify toy minute_and_half (codes "C-D") account).1.recovery_codes ≡ codes "AB" ∷ [] ∷ [] ∷ []
unfolding verify verify_with check_code verify_totp consume_recovery_code consume without_dashes
recovered = refl

-- The recovery code CD, with and without the UPDATE that spends it.
abbrev unsaved : Writes
unsaved = record { accepts = false; clears = true }

recovered_ok : (verify_with toy unsaved minute_and_half (codes "C-D") account).0 ≡ ok tt
unfolding verify_with check_code verify_totp consume_recovery_code consume without_dashes
recovered_ok = refl

verify_spends_example :
    (is_locked minute_and_half account.locked_until ≡ false)
    × (((secret : Bytes) × (c : ℕ) × (toy.open_secret account.secret ≡ some secret)
          × (hotp toy secret c ≡ codes "C-D")
          × (c ≤ minute_and_half / 1_000_000_000 / 30 + 1)
          × (minute_and_half / 1_000_000_000 / 30 ≤ c + 1)
          × (account.last_used_counter < c)
          × ((verify_with toy unsaved minute_and_half (codes "C-D") account).1.last_used_counter
              ≡ c)
          × ((verify_with toy unsaved minute_and_half (codes "C-D") account).1.recovery_codes
              ≡ account.recovery_codes))
        ⊎ (((verify_with toy unsaved minute_and_half (codes "C-D") account).1.last_used_counter
              ≡ account.last_used_counter)
            × ((left : List Bytes) × FirstSlot toy
                  (toy.to_upper (without_dashes (codes "C-D")))
                  account.recovery_codes
                  left
                × ((verify_with toy unsaved minute_and_half (codes "C-D") account).1.recovery_codes
                    ≡ account.recovery_codes))))
verify_spends_example = verify_spends toy unsaved minute_and_half (codes "C-D") account recovered_ok

miss : (now : ℕ) → Misses toy (codes "key") account.recovery_codes now (codes "x")
unfolding verify_totp consume without_dashes
miss now = record { no_window = refl; no_slot = refl }

five_guesses_lock_example :
    ((guesses toy
        ((90, codes "x") ∷ (91, codes "x") ∷ (92, codes "x") ∷ (93, codes "x") ∷ [])
        account).locked_until
      ≡ none)
    × ((now : ℕ) (right : Bytes)
        → now < 94 + lockout_duration
        → let shut_out =
            guesses toy
              (((90, codes "x") ∷ (91, codes "x") ∷ (92, codes "x") ∷ (93, codes "x") ∷ [])
                ++ ((94, codes "x") ∷ []))
              account in
          verify toy now right shut_out ≡ (err locked, shut_out))
five_guesses_lock_example =
    five_guesses_lock toy (codes "key") account 90 (codes "x")
      ((91, codes "x") ∷ (92, codes "x") ∷ (93, codes "x") ∷ []) 94 (codes "x") refl refl refl refl
      refl (miss 90)
      ((omega arith, miss 91), ((omega arith, miss 92), ((omega arith, miss 93), tt))) (omega arith)
      (miss 94)
