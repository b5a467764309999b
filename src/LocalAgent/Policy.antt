-- ===== src/LocalAgent/Policy.antt =====
-- agent/internal/policy/policy.go: what the local policy allows.
use vaultscan.Prelude.{
  ℕ, Bool, true, false, ◌||◌, ◌&&◌, Option, none, some, List, [], ◌∷◌, ◌++◌, ltb, if◌then◌else◌,
  Bytes, codes, bytes_equal,
}
use vaultscan.ScopeGuard.Targets.{TextLib, contains, has_suffix}
use vaultscan.Jobs.Targets.{contains_rune}

-- `Local`; the two maps are the lists that `Update` makes them from.
pub record LocalPolicy : Type 0 where
  pub allowed_scopes : List Bytes
  pub blocked_scopes : List Bytes
  pub allowed_profiles : List Bytes
  pub allowed_tools : List Bytes
  pub max_concurrent_jobs : ℕ
  pub max_cpu : ℕ
  pub max_memory : ℕ

unfoldable pub new_local : LocalPolicy
new_local = record {
  allowed_scopes = [];
  blocked_scopes = [];
  allowed_profiles = [];
  allowed_tools = [];
  max_concurrent_jobs = 1;
  max_cpu = 70;
  max_memory = 75;
}

-- A lookup in the map of a list.
unfoldable pub listed : Bytes → List Bytes → Bool
listed x [] = false
listed x (y ∷ ys) = bytes_equal x y || listed x ys

-- An empty map allows everything.
unfoldable pub allows_in : List Bytes → Bytes → Bool
allows_in [] x = true
allows_in (y ∷ ys) x = listed x (y ∷ ys)

unfoldable pub allows_profile : LocalPolicy → Bytes → Bool
allows_profile p code = allows_in p.allowed_profiles code

unfoldable pub allows_tool : LocalPolicy → Bytes → Bool
allows_tool p tool = allows_in p.allowed_tools tool

unfoldable pub max_concurrent : LocalPolicy → ℕ
max_concurrent p = if ltb p.max_concurrent_jobs 1 then 1 else p.max_concurrent_jobs

module _ (lib : TextLib) where
  abbrev pub folded : Bytes → Bytes
  folded s = lib.to_lower (lib.trim_space s)

  unfoldable pub in_cidr : Bytes → Bytes → Option Bool
  in_cidr scope target = elim (lib.parse_cidr scope) [
    | none ↦ none
    | some network ↦ elim (lib.parse_ip target) [
      | none ↦ none
      | some ip ↦ some (contains network ip)
    ]
  ]

  -- `matches`
  unfoldable pub scope_matches : Bytes → Bytes → Bool
  scope_matches scope target =
      let s = folded scope in
      let t = folded target in
      if bytes_equal s t then true else elim (in_cidr s t) [
        | some inside ↦ inside
        | none ↦ contains_rune b'.' s && has_suffix t (codes "." ++ s)
      ]

  unfoldable pub matches_some : List Bytes → Bytes → Bool
  matches_some [] target = false
  matches_some (s ∷ ss) target = scope_matches s target || matches_some ss target

  unfoldable pub allows_target : LocalPolicy → Bytes → Bool
  allows_target p target =
      if matches_some p.blocked_scopes target
      then false
      else elim p.allowed_scopes [ [] ↦ true | (s ∷ ss) ↦ matches_some (s ∷ ss) target ]
