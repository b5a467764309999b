-- ===== src/TenantScope.antt =====
-- backend/internal/auth/tenant_scope.go: which tenant a request may act on.
pub mod Grants
pub mod Optional
use text.Mathlib.Text.{◌==◌ as str_eq}
use Prim.Native.String.{String}
use vaultscan.Prelude.{
  ℕ, Bool, true, false, ◌||◌, ◌&&◌, not, Option, none, some, List, [], ◌∷◌, ◌==◌, if◌then◌else◌,
}
use vaultscan.Prelude.Result.{Result, ok, err, ◌>>=◌}

-- A UUID as a number; uuid.Nil is 0.
abbrev pub Uuid : Type 0
Uuid = ℕ

-- The fields of auth.Identity that decide.
pub record Identity : Type 0 where
  pub partner_id : Option Uuid
  pub tenant_id : Option Uuid
  pub roles : List String

pub data ScopeError : Type 0 where
  no_identity invalid_uuid tenant_required cross_tenant_forbidden : ScopeError
  missing_tenant_claim no_authorizing_role : ScopeError

unfoldable pub platform_level : String → Bool
platform_level role =
    str_eq role "zaishield_super_admin"
    || str_eq role "platform_admin"
    || str_eq role "platform_operator"

unfoldable pub partner_level : String → Bool
partner_level role =
    str_eq role "distributor_admin"
    || str_eq role "reseller_admin"
    || str_eq role "mssp_admin"
    || str_eq role "partner_admin"
    || str_eq role "partner_operator"

unfoldable pub tenant_level : String → Bool
tenant_level role =
    str_eq role "tenant_admin"
    || str_eq role "tenant_operator"
    || str_eq role "tenant_analyst"
    || str_eq role "tenant_viewer"
    || str_eq role "client_viewer"

-- The loops `for _, role := range id.Roles { if level[role] { return … } }`: whether one returns.
unfoldable pub has_level : (String → Bool) → List String → Bool
has_level level [] = false
has_level level (role ∷ roles) = level role || has_level level roles

-- strings.TrimSpace, and uuid.Parse of github.com/google/uuid.
pub record UuidText : Type 0 where
  pub trim_space : String → String
  pub parse : String → Option Uuid

-- `PartnerTenantChecker`, which `WithPartnerTenantCheck` wires; `none` if it is not wired.
abbrev pub Checker : Type 0
Checker = Option (Uuid → Uuid → Bool)

module _ (lib : UuidText) where
  -- An empty text is no request.
  unfoldable pub requested_id : String → Result ScopeError (Option Uuid)
  requested_id requested =
      let text = lib.trim_space requested in
      if str_eq text ""
      then ok none
      else elim (lib.parse text) [ none ↦ err invalid_uuid | some u ↦ ok (some u) ]

-- uuid.Nil stands for no request.
abbrev pub uuid_or_nil : Option Uuid → Uuid
uuid_or_nil none = 0
uuid_or_nil (some u) = u

unfoldable pub linked : Checker → Option Uuid → Uuid → Bool
linked none partner tenant = true
linked (some check) none tenant = true
linked (some check) (some partner) tenant = check partner tenant

-- The three loops of `AuthorizeTargetTenant`, behind the parsed request.
unfoldable pub target_tenant : Identity → Checker → Uuid → Result ScopeError Uuid
target_tenant id check requested =
    if has_level platform_level id.roles
    then (if requested == 0 then err tenant_required else ok requested)
    else if has_level partner_level id.roles
    then (if requested == 0
        then err tenant_required
        else if linked check id.partner_id requested
        then ok requested
        else err cross_tenant_forbidden)
    else if has_level tenant_level id.roles
    then elim id.tenant_id [
      | none ↦ err missing_tenant_claim
      | some own ↦
          if requested == 0
          then ok own
          else if requested == own
          then ok own
          else err cross_tenant_forbidden
    ]
    else err no_authorizing_role

unfoldable pub optional_tenant : Identity → Option Uuid → Result ScopeError (Option Uuid)
optional_tenant id requested =
    if has_level platform_level id.roles
    then ok requested
    else if has_level partner_level id.roles
    then ok requested
    else if has_level tenant_level id.roles
    then elim id.tenant_id [
      | none ↦ err missing_tenant_claim
      | some own ↦ elim requested [
        | none ↦ ok (some own)
        | some u ↦ if u == own then ok (some own) else err cross_tenant_forbidden
      ]
    ]
    else err no_authorizing_role

module _ (lib : UuidText) where
  unfoldable pub authorize_target_tenant :
      Option Identity → String → Checker → Result ScopeError Uuid
  authorize_target_tenant none requested check = err no_identity
  authorize_target_tenant (some id) requested check =
      requested_id lib requested >>= λ r. target_tenant id check (uuid_or_nil r)

  unfoldable pub authorize_optional_tenant :
      Option Identity → String → Result ScopeError (Option Uuid)
  authorize_optional_tenant none requested = err no_identity
  authorize_optional_tenant (some id) requested =
      requested_id lib requested >>= λ r. optional_tenant id r
