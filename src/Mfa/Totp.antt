-- ===== src/Mfa/Totp.antt =====
-- The TOTP codes of RFC 6238 (backend/internal/auth/totp.go, `verifyTOTP` and `hotp`).
use vaultscan.Prelude.{
  ℕ, ◌+◌, ◌-◌, ◌*◌, ◌/◌, ◌%◌, ◌≤◌, ◌≡◌, Bool, not, Option, none, some, List, [], ◌∷◌, ◌==◌,
  if◌then◌else◌, Bytes, bytes_equal, length, get_elem?, arith, bytes_equal→eq,
}

-- What the code calls: HMAC-SHA1, AES-GCM under the platform key, bcrypt, and the package strings.
pub record MfaLib : Type 0 where
  pub hmac_sha1 : Bytes → Bytes → Bytes
  pub open_secret : Bytes → Option Bytes
  pub compare_hash_and_password : Bytes → Bytes → Bool
  pub trim_space : Bytes → Bytes
  pub to_upper : Bytes → Bytes

-- binary.BigEndian.PutUint64
unfoldable pub big_endian : ℕ → Bytes
big_endian n =
    n / 72_057_594_037_927_936 % 256
    ∷ n / 281_474_976_710_656 % 256
    ∷ n / 1_099_511_627_776 % 256
    ∷ n / 4_294_967_296 % 256
    ∷ n / 16_777_216 % 256
    ∷ n / 65_536 % 256
    ∷ n / 256 % 256
    ∷ n % 256
    ∷ []

-- A digest has 20 bytes, so that no index of `hotp` is out of range.
abbrev pub byte_or_0 : Option ℕ → ℕ
byte_or_0 none = 0
byte_or_0 (some b) = b

unfoldable pub byte_at : Bytes → ℕ → ℕ
byte_at s i = byte_or_0 (get_elem? s i)

-- "%06d" of a number below a million.
unfoldable pub six_digits : ℕ → Bytes
six_digits n =
    (48 + n / 100_000 % 10)
    ∷ (48 + n / 10_000 % 10)
    ∷ (48 + n / 1_000 % 10)
    ∷ (48 + n / 100 % 10)
    ∷ (48 + n / 10 % 10)
    ∷ (48 + n % 10)
    ∷ []

-- The four bytes at `offset`, without the sign bit: the shifted parts do not overlap, so that `|` is
-- a sum.
unfoldable pub truncate : Bytes → ℕ → ℕ
truncate sum offset =
    byte_at sum offset % 128 * 16_777_216
    + byte_at sum (offset + 1) * 65_536
    + byte_at sum (offset + 2) * 256
    + byte_at sum (offset + 3)

module _ (lib : MfaLib) where
  unfoldable pub hotp : Bytes → ℕ → Bytes
  hotp secret counter =
      let sum = lib.hmac_sha1 secret (big_endian counter) in
      six_digits (truncate sum (byte_at sum (length sum - 1) % 16) % 1_000_000)

  unfoldable pub try_counter : Bytes → Bytes → List ℕ → Option ℕ
  try_counter secret code [] = none
  try_counter secret code (c ∷ cs) =
      let later = try_counter secret code cs in
      if bytes_equal (hotp secret c) code then some c else later

  -- The counter that matches, `none` for -1. The time is behind the first 30 seconds of 1970.
  unfoldable pub verify_totp : Bytes → Bytes → ℕ → Option ℕ
  verify_totp secret code now =
      let text = lib.trim_space code in
      let counter = now / 1_000_000_000 / 30 in
      let tried = try_counter secret text ((counter - 1) ∷ counter ∷ (counter + 1) ∷ []) in
      if not (length text == 6) then none else tried

  -- A counter that is accepted is the one before, of or after the time, and its code is the text.
  pub verify_totp_sound :
      (secret code : Bytes) (now c : ℕ)
      → verify_totp secret code now ≡ some c
      → (c ≤ now / 1_000_000_000 / 30 + 1)
        × (now / 1_000_000_000 / 30 ≤ c + 1)
        × (hotp secret c ≡ lib.trim_space code)
  unfolding verify_totp try_counter
  verify_totp_sound secret code now c e =
      let k = now / 1_000_000_000 / 30 in
      let text = lib.trim_space code in
      ground (
        arith,
        bytes_equal→eq (hotp secret (k - 1)) text,
        bytes_equal→eq (hotp secret k) text,
        bytes_equal→eq (hotp secret (k + 1)) text,
      )
