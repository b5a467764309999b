-- ===== src/Jobs/Targets.antt =====
-- What kind of target a text is (backend/internal/scanorch/orchestrator.go, detectTargetType).
use vaultscan.Prelude.{
  ℕ, ◌+◌, Bool, true, false, ◌&&◌, ◌||◌, [], ◌∷◌, ltb, leb, ◌==◌, if◌then◌else◌, Bytes, codes,
  bytes_equal, length, take,
}

-- The loops are over the runes of a text; only ASCII ones count.
unfoldable pub count_dots : Bytes → ℕ
count_dots [] = 0
count_dots (c ∷ s) = let rest = count_dots s in if c == b'.' then rest + 1 else rest

unfoldable pub all_digits_or_dot : Bytes → Bool
all_digits_or_dot [] = true
all_digits_or_dot (c ∷ s) = ((c == b'.') || (leb b'0' c && leb c b'9')) && all_digits_or_dot s

unfoldable pub contains_rune : ℕ → Bytes → Bool
contains_rune r [] = false
contains_rune r (c ∷ s) = (c == r) || contains_rune r s

unfoldable pub before_slash : Bytes → Bytes
before_slash [] = []
before_slash (c ∷ s) = let rest = before_slash s in if c == b'/' then [] else c ∷ rest

-- isIP, and isIPish, which is the same.
unfoldable pub is_ip : Bytes → Bool
is_ip t = (count_dots t == 3) && all_digits_or_dot t

unfoldable pub is_cidr : Bytes → Bool
is_cidr t = contains_rune b'/' t && is_ip (before_slash t)

unfoldable pub has_url_scheme : Bytes → Bool
has_url_scheme t =
    ltb 7 (length t)
    && (bytes_equal (take 7 t) (codes "http://")
        || (ltb 8 (length t) && bytes_equal (take 8 t) (codes "https://")))

unfoldable pub detect_target_type : Bytes → Bytes
detect_target_type t =
    if is_cidr t
    then codes "cidr"
    else if is_ip t
    then codes "ip"
    else if has_url_scheme t
    then codes "url"
    else codes "domain"
