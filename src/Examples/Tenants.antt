-- ===== src/Examples/Tenants.antt =====
-- Tests of TenantScope and its children.
use vaultscan.Prelude.{◌≡◌, ◌↔◌, refl, none, some, Option, [], ◌∷◌, arith, false}
use vaultscan.Prelude.Result.{ok}
use vaultscan.TenantScope.{
  Uuid, Identity, UuidText, requested_id, uuid_or_nil, authorize_target_tenant,
  authorize_optional_tenant, target_tenant, optional_tenant, has_level, platform_level,
  partner_level, tenant_level,
}
use vaultscan.TenantScope.Grants.{
  Grants, authorize_target_tenant_iff, authorize_target_tenant-isolates,
}
use vaultscan.TenantScope.Optional.{
  authorize_optional_tenant-isolates, authorize_optional_tenant-agrees,
}

-- Every text that is not empty names tenant 5.
abbrev toy : UuidText
toy = record { trim_space = λ s. s; parse = λ s. some 5 }

abbrev analyst : Identity
analyst = record { partner_id = none; tenant_id = some 5; roles = "tenant_analyst" ∷ [] }

granted : authorize_target_tenant toy (some analyst) "five" none ≡ ok 5
unfolding authorize_target_tenant requested_id target_tenant has_level platform_level partner_level
    tenant_level
granted = refl

granted_own : authorize_optional_tenant toy (some analyst) "" ≡ ok (some 5)
unfolding authorize_optional_tenant requested_id optional_tenant has_level platform_level
    partner_level tenant_level
granted_own = refl

not_platform : has_level platform_level analyst.roles ≡ false
unfolding has_level platform_level
not_platform = refl

not_partner : has_level partner_level analyst.roles ≡ false
unfolding has_level partner_level
not_partner = refl

authorize_target_tenant_iff_example :
    (authorize_target_tenant toy (some analyst) "five" none ≡ ok 5)
    ↔ ((r : Option Uuid) × (requested_id toy "five" ≡ ok r) × Grants analyst none (uuid_or_nil r) 5)
authorize_target_tenant_iff_example = authorize_target_tenant_iff toy analyst "five" none 5

own_tenant_only : analyst.tenant_id ≡ some 5
own_tenant_only =
    authorize_target_tenant-isolates toy analyst "five" none 5 not_platform not_partner granted

analyst_isolated : (own : Uuid) × (analyst.tenant_id ≡ some own) × (some 5 ≡ some own)
analyst_isolated =
    authorize_optional_tenant-isolates toy analyst "" (some 5) not_platform not_partner granted_own

five_parsed : requested_id toy "five" ≡ ok (some 5)
unfolding requested_id
five_parsed = refl

optional_agrees : authorize_optional_tenant toy (some analyst) "five" ≡ ok (some 5)
optional_agrees =
    authorize_optional_tenant-agrees toy analyst "five" 5 5 five_parsed (omega arith) granted
