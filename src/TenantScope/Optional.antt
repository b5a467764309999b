-- ===== src/TenantScope/Optional.antt =====
-- `AuthorizeOptionalTenant` (backend/internal/auth/tenant_scope.go) beside `AuthorizeTargetTenant`.
use Prim.Native.String.{String}
use vaultscan.Prelude.{false, Option, none, some, ◌≡◌, ◌≢◌, inl, inr, arith, Option-cases}
use vaultscan.Prelude.Result.{ok, >>=-eq-ok}
use vaultscan.TenantScope.{
  Uuid, Identity, platform_level, partner_level, has_level, UuidText, requested_id, linked,
  target_tenant, authorize_target_tenant, optional_tenant, authorize_optional_tenant,
}

optional_own :
    (id : Identity) (r o : Option Uuid)
    → has_level platform_level id.roles ≡ false
    → has_level partner_level id.roles ≡ false
    → optional_tenant id r ≡ ok o
    → (own : Uuid) × (id.tenant_id ≡ some own) × (o ≡ some own)
unfolding optional_tenant
optional_own id r o p q e = elim (Option-cases id.tenant_id) [
  | inl z ↦ absurd (ground arith)
  | inr (own, z) ↦ (own, z, ground arith)
]

agrees :
    (id : Identity) (u t : Uuid)
    → u ≢ 0
    → target_tenant id none u ≡ ok t
    → optional_tenant id (some u) ≡ ok (some t)
unfolding target_tenant optional_tenant linked
agrees id u t nz e = ground arith

module _ (lib : UuidText) where
  -- A caller with no platform and no partner role is always bound to its own tenant: it cannot leave
  -- the tenant out.
  pub authorize_optional_tenant-isolates :
      (id : Identity) (text : String) (o : Option Uuid)
      → has_level platform_level id.roles ≡ false
      → has_level partner_level id.roles ≡ false
      → authorize_optional_tenant lib (some id) text ≡ ok o
      → (own : Uuid) × (id.tenant_id ≡ some own) × (o ≡ some own)
  unfolding authorize_optional_tenant
  authorize_optional_tenant-isolates id text o p q e =
      let (r, _, granted) = >>=-eq-ok _ (requested_id lib text) e in optional_own id r o p q granted

  -- Where the text names a tenant other than uuid.Nil and `AuthorizeTargetTenant`, with no checker
  -- wired, grants one, `AuthorizeOptionalTenant` grants the same.
  pub authorize_optional_tenant-agrees :
      (id : Identity) (text : String) (u t : Uuid)
      → requested_id lib text ≡ ok (some u)
      → u ≢ 0
      → authorize_target_tenant lib (some id) text none ≡ ok t
      → authorize_optional_tenant lib (some id) text ≡ ok (some t)
  unfolding authorize_target_tenant authorize_optional_tenant
  authorize_optional_tenant-agrees id text u t parsed nz e =
      rw parsed (agrees id u t nz (rw parsed at e))
