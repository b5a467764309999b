-- ===== src/ScopeGuard/Targets.antt =====
-- `matches` and `hostFromURL` of backend/internal/scopeguard/scopeguard.go, and the networks of Go's
-- package net that they use.
use vaultscan.Prelude.{
  ℕ, ◌-◌, ◌/◌, ◌^◌, Bool, false, ◌||◌, ◌&&◌, not, Option, none, some, [], ◌∷◌, leb, ◌==◌,
  if◌then◌else◌, Bytes, codes, bytes_equal, length, drop,
}

-- An address of `bits` bits; an IPv4 address in its IPv6 form counts as IPv4, as Go's To4 has it.
pub record Address : Type 0 where
  pub bits : ℕ
  pub value : ℕ

-- net.IPNet: the base with its host bits cleared, and the mask: how many ones of how many bits. The
-- mask of an IPv4 network that is written in its IPv6 form has 128 bits, and its base 32.
pub record Network : Type 0 where
  pub base : Address
  pub ones : ℕ
  pub mask_bits : ℕ

-- strings.ToLower, strings.TrimSpace and strings.EqualFold over Unicode, and the parsers
-- net.ParseIP and net.ParseCIDR.
pub record TextLib : Type 0 where
  pub to_lower : Bytes → Bytes
  pub trim_space : Bytes → Bytes
  pub equal_fold : Bytes → Bytes → Bool
  pub parse_ip : Bytes → Option Address
  pub parse_cidr : Bytes → Option Network

-- (*IPNet).Contains, which takes the last 32 bits of a mask of 128 for a base of 32 bits.
unfoldable pub contains : Network → Address → Bool
contains n a =
    let host = 2 ^ (n.mask_bits - n.ones) in
    (n.base.bits == a.bits) && (n.base.value / host == a.value / host)

-- What follows a prefix.
unfoldable pub strip_prefix : Bytes → Bytes → Option Bytes
strip_prefix [] s = some s
strip_prefix (p ∷ ps) [] = none
strip_prefix (p ∷ ps) (c ∷ s) = let rest = strip_prefix ps s in if p == c then rest else none

-- What follows the first occurrence: s[strings.Index(s, sep) + len(sep):], `none` if there is none.
unfoldable pub after_first : Bytes → Bytes → Option Bytes
after_first sep [] = strip_prefix sep []
after_first sep (c ∷ s) =
    let later = after_first sep s in
    elim (strip_prefix sep (c ∷ s)) [ some rest ↦ some rest | none ↦ later ]

-- s[:i] for the first index i at which `stop` holds; all of s if there is none.
unfoldable pub until : (ℕ → Bool) → Bytes → Bytes
until stop [] = []
until stop (c ∷ s) = let rest = until stop s in if stop c then [] else c ∷ rest

abbrev pub ends_authority : ℕ → Bool
ends_authority c = (c == b'/') || (c == b'?') || (c == b'#')

abbrev pub is_colon : ℕ → Bool
is_colon c = c == b':'

unfoldable pub host_from_url : Bytes → Bytes
host_from_url s = elim (after_first (codes "://") s) [
  | none ↦ []
  | some rest ↦ until is_colon (until ends_authority rest)
]

-- strings.HasSuffix
unfoldable pub has_suffix : Bytes → Bytes → Bool
has_suffix s suffix =
    leb (length suffix) (length s) && bytes_equal (drop (length s - length suffix) s) suffix

-- The host that a target of type "url" names, if it looks like a URL.
unfoldable pub domain_target : Bytes → Bytes → Bytes
domain_target target_type target =
    let host = host_from_url target in
    if bytes_equal target_type (codes "url") && not (length host == 0) then host else target

unfoldable pub in_domain : Bytes → Bytes → Bool
in_domain domain t = bytes_equal t domain || has_suffix t (b'.' ∷ domain)

module _ (lib : TextLib) where
  unfoldable pub in_network : Bytes → Bytes → Bool
  in_network scope target = elim (lib.parse_cidr scope) [
    | none ↦ false
    | some network ↦ elim (lib.parse_ip target) [
      | some ip ↦ contains network ip
      | none ↦ elim (lib.parse_cidr target) [
        | none ↦ false
        | some t ↦ contains network t.base && leb network.ones t.ones
      ]
    ]
  ]

  -- The cases "subdomain", "url", "api" and "ip" do what the default does.
  unfoldable pub matches : Bytes → Bytes → Bytes → Bytes → Bool
  matches scope_type scope_value target_type target =
      let t = lib.to_lower (lib.trim_space target) in
      let scope = lib.to_lower (lib.trim_space scope_value) in
      if bytes_equal scope_type (codes "domain")
      then in_domain scope (domain_target target_type t)
      else if bytes_equal scope_type (codes "cidr")
      then in_network scope t
      else bytes_equal t scope
