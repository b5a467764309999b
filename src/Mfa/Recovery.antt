-- ===== src/Mfa/Recovery.antt =====
-- `Verify` (backend/internal/auth/totp.go) accepts nothing twice: a TOTP code advances the counter, and a
-- recovery code is spent.

use vaultscan.Prelude.{
  ℕ, ◌+◌, ◌/◌, ◌≤◌, ◌<◌, ◌≡◌, ◌≢◌, ◌⊎◌, inl, inr, refl, sym, ap, ◌∙◌, true, false, Option, none,
  some, List, [], ◌∷◌, ◌++◌, All, if◌then◌else◌, Bytes, arith, Bool-cases, Option-cases,
}
use vaultscan.Prelude.Result.{ok}
use vaultscan.Mfa.Totp.{MfaLib, hotp, verify_totp, verify_totp_sound}
use vaultscan.Mfa.{
  Account, Writes, window_over, is_locked, consume, consume_recovery_code, check_code, verify_with,
  without_dashes,
}

module _ (lib : MfaLib) where
  -- The first slot that is not blank and holds the hash of the code, and the slots with it blank.
  pub record FirstSlot (code : Bytes) (hs hs' : List Bytes) : Type 0 where
    pub front : List Bytes
    pub slot : Bytes
    pub back : List Bytes
    pub split : hs ≡ front ++ (slot ∷ back)
    pub spent : hs' ≡ front ++ ([] ∷ back)
    pub used : slot ≢ []
    pub fits : lib.compare_hash_and_password slot code ≡ true
    pub none_before : All (λ h. (h ≡ []) ⊎ (lib.compare_hash_and_password h code ≡ false)) front

  later-FirstSlot :
      (code h : Bytes) (hs rest : List Bytes)
      → (h ≡ []) ⊎ (lib.compare_hash_and_password h code ≡ false)
      → FirstSlot code hs rest
      → FirstSlot code (h ∷ hs) (h ∷ rest)
  later-FirstSlot code h hs rest passed s = record {
    front = h ∷ s.front;
    slot = s.slot;
    back = s.back;
    split = ap (λ l. h ∷ l) s.split;
    spent = ap (λ l. h ∷ l) s.spent;
    used = s.used;
    fits = s.fits;
    none_before = (passed, s.none_before);
  }

  consume-FirstSlot :
      (code : Bytes) (hs hs' : List Bytes) → consume lib code hs ≡ some hs' → FirstSlot code hs hs'
  unfolding consume
  consume-FirstSlot code [] hs' e = absurd (ground arith)
  consume-FirstSlot code ([] ∷ hs) hs' e = elim (Option-cases (consume lib code hs)) [
    | inl z ↦ absurd (ground arith)
    | inr (rest, z) ↦
        let at : [] ∷ rest ≡ hs' = ground (arith, z) in
        rw (← at) (later-FirstSlot code [] hs rest (inl refl) (consume-FirstSlot code hs rest z))
  ]
  consume-FirstSlot code ((c ∷ h) ∷ hs) hs' e =
      elim (Bool-cases (lib.compare_hash_and_password (c ∷ h) code)) [
        | inl fits ↦ record {
          front = [];
          slot = c ∷ h;
          back = hs;
          split = refl;
          spent = ground (arith, fits);
          used = λ z. cc;
          fits = fits;
          none_before = tt;
        }
        | inr misses ↦ elim (Option-cases (consume lib code hs)) [
          | inl z ↦ absurd (ground arith)
          | inr (rest, z) ↦
              let at : (c ∷ h) ∷ rest ≡ hs' = ground (arith, z) in
              rw (← at) (
                later-FirstSlot code (c ∷ h) hs rest (inr misses)
                  (consume-FirstSlot code hs rest z))
        ]
      ]

  module _ (w : Writes) where
    by_code :
        (secret code : Bytes) (now count c : ℕ) (start : Option ℕ) (a : Account)
        → verify_totp lib secret code now ≡ some c
        → (check_code lib w now code secret count start a).0 ≡ ok tt
        → (a.last_used_counter < c)
          × ((check_code lib w now code secret count start a).1.last_used_counter ≡ c)
          × ((check_code lib w now code secret count start a).1.recovery_codes ≡ a.recovery_codes)
    unfolding check_code
    by_code secret code now count c start a v e = ground arith

    by_slot :
        (secret code : Bytes) (now count : ℕ) (start : Option ℕ) (a : Account)
        → verify_totp lib secret code now ≡ none
        → (check_code lib w now code secret count start a).0 ≡ ok tt
        → ((check_code lib w now code secret count start a).1.last_used_counter
            ≡ a.last_used_counter)
          × ((left : List Bytes) × FirstSlot
                (lib.to_upper (without_dashes code))
                a.recovery_codes
                left
              × ((check_code lib w now code secret count start a).1.recovery_codes
                  ≡ (if w.accepts then left else a.recovery_codes)))
    unfolding check_code consume_recovery_code
    by_slot secret code now count start a v e =
        let tried = lib.to_upper (without_dashes code) in
        elim (Option-cases (consume lib tried a.recovery_codes)) [
          | inl z ↦ absurd (ground arith)
          | inr (left, z) ↦
              (ground arith, (left, consume-FirstSlot tried a.recovery_codes left z, ground arith))
        ]

    verify-checks :
        (now : ℕ) (code : Bytes) (a : Account)
        → (verify_with lib w now code a).0 ≡ ok tt
        → (secret : Bytes) × (count : ℕ) × (start : Option ℕ) × (lib.open_secret a.secret
            ≡ some secret)
          × (is_locked now a.locked_until ≡ false)
          × (verify_with lib w now code a ≡ check_code lib w now code secret count start a)
    unfolding verify_with
    verify-checks now code a e = elim (Bool-cases (is_locked now a.locked_until)) [
      | inl shut ↦ absurd (ground arith)
      | inr free ↦ elim (Option-cases (lib.open_secret a.secret)) [
        | inl z ↦ absurd (ground arith)
        | inr (secret, z) ↦ (
          secret,
          if window_over now a.failed_start then 0 else a.failed_count,
          if window_over now a.failed_start then none else a.failed_start,
          z,
          free,
          rw (free, z, verify_with) refl,
        )
      ]
    ]

    -- An attempt that succeeds is on an account that is not locked, and in one of two ways. With a TOTP
    -- code for a counter near the time that is greater than the stored counter: it is stored then,
    -- and no recovery code is spent. Or with the recovery code of the first slot that fits: exactly
    -- this slot is blank afterwards if the UPDATE that spends it succeeds, and none is if it fails.
    pub verify_spends :
        (now : ℕ) (code : Bytes) (a : Account)
        → (verify_with lib w now code a).0 ≡ ok tt
        → (is_locked now a.locked_until ≡ false)
          × (((secret : Bytes) × (c : ℕ) × (lib.open_secret a.secret ≡ some secret)
                × (hotp lib secret c ≡ lib.trim_space code)
                × (c ≤ now / 1_000_000_000 / 30 + 1)
                × (now / 1_000_000_000 / 30 ≤ c + 1)
                × (a.last_used_counter < c)
                × ((verify_with lib w now code a).1.last_used_counter ≡ c)
                × ((verify_with lib w now code a).1.recovery_codes ≡ a.recovery_codes))
              ⊎ (((verify_with lib w now code a).1.last_used_counter ≡ a.last_used_counter)
                  × ((left : List Bytes) × FirstSlot
                        (lib.to_upper (without_dashes code))
                        a.recovery_codes
                        left
                      × ((verify_with lib w now code a).1.recovery_codes
                          ≡ (if w.accepts then left else a.recovery_codes)))))
    verify_spends now code a e =
        let (secret, count, start, z, free, is) = verify-checks now code a e in
        let done = sym (ap (λ x. x.0) is) ∙ e in
        (
          free,
          elim (Option-cases (verify_totp lib secret code now)) [
            | inl none_fits ↦ inr (rw is (by_slot secret code now count start a none_fits done))
            | inr (c, fits) ↦
                let (up, low, same) = verify_totp_sound lib secret code now c fits in
                let (greater, stored, kept) = by_code secret code now count c start a fits done in
                inl (secret, c, z, same, up, low, greater, rw is stored, rw is kept)
          ],
        )
