-- ===== src/TenantScope/Grants.antt =====
-- The rules of `AuthorizeTargetTenant` (backend/internal/auth/tenant_scope.go). They are those of the
-- comments in that file but for two: a caller with a platform role has to name a tenant, where rule 1
-- of the header permits none; and a caller with a partner role but no partner_id is not asked for the
-- linkage, where the comment of the function demands it whenever a checker is given.
use Prim.Native.String.{String}
use vaultscan.Prelude.{
  refl, Bool, true, false, Option, none, some, ◌≡◌, ◌≢◌, ◌⊎◌, ◌↔◌, inl, inr, arith, Bool-cases,
  Option-cases,
}
use vaultscan.Prelude.Result.{ok, ◌>>=◌, >>=-eq-ok}
use vaultscan.TenantScope.{
  Uuid, Identity, platform_level, partner_level, tenant_level, has_level, UuidText, Checker,
  requested_id, uuid_or_nil, linked, target_tenant, authorize_target_tenant,
}

-- What holds a partner role back: a checker that knows the partner and denies the tenant.
pub data MayServe (id : Identity) (check : Checker) (t : Uuid) : Type 0 where
  unchecked : check ≡ none → MayServe id check t
  no_partner : id.partner_id ≡ none → MayServe id check t
  confirmed :
      (ask : Uuid → Uuid → Bool) (partner : Uuid)
      → check ≡ some ask
      → id.partner_id ≡ some partner
      → ask partner t ≡ true
      → MayServe id check t

linked-MayServe :
    (id : Identity) (check : Checker) (t : Uuid)
    → linked check id.partner_id t ≡ true
    → MayServe id check t
unfolding linked
linked-MayServe id none t e = unchecked refl
linked-MayServe id (some ask) t e = elim (Option-cases id.partner_id) [
  | inl absent ↦ no_partner absent
  | inr (partner, is) ↦ confirmed ask partner refl is (rw is at e)
]

MayServe-linked :
    (id : Identity) (check : Checker) (t : Uuid)
    → MayServe id check t
    → linked check id.partner_id t ≡ true
unfolding linked
MayServe-linked id check t (unchecked e) = rw e refl
MayServe-linked id none t (no_partner e) = refl
MayServe-linked id (some ask) t (no_partner e) = rw e refl
MayServe-linked id check t (confirmed ask partner c p e) = rw (c, p) e

-- Who may act on tenant `t` when tenant `requested` is asked for, uuid.Nil for none.
pub data Grants (id : Identity) (check : Checker) (requested t : Uuid) : Type 0 where
  by_platform :
      has_level platform_level id.roles ≡ true → requested ≡ t → t ≢ 0 → Grants id check requested t
  by_partner :
      has_level platform_level id.roles ≡ false
      → has_level partner_level id.roles ≡ true
      → requested ≡ t
      → t ≢ 0
      → MayServe id check t
      → Grants id check requested t
  by_tenant :
      has_level platform_level id.roles ≡ false
      → has_level partner_level id.roles ≡ false
      → has_level tenant_level id.roles ≡ true
      → id.tenant_id ≡ some t
      → (requested ≡ 0) ⊎ (requested ≡ t)
      → Grants id check requested t

target_tenant_sound :
    (id : Identity) (check : Checker) (requested t : Uuid)
    → target_tenant id check requested ≡ ok t
    → Grants id check requested t
unfolding target_tenant
target_tenant_sound id check requested t e = elim (Bool-cases (has_level platform_level id.roles)) [
  | inl p ↦ by_platform p (ground arith) (λ z. ground arith)
  | inr p ↦ elim (Bool-cases (has_level partner_level id.roles)) [
    | inl q ↦
        by_partner p q (ground arith) (λ z. ground arith)
          (linked-MayServe id check t (ground arith))
    | inr q ↦ elim (Bool-cases (has_level tenant_level id.roles)) [
      | inl r ↦ elim (Option-cases id.tenant_id) [
        | inl none_claimed ↦ absurd (ground arith)
        | inr (own, claimed) ↦ by_tenant p q r (ground arith) (ground arith)
      ]
      | inr r ↦ absurd (ground arith)
    ]
  ]
]

target_tenant_complete :
    (id : Identity) (check : Checker) (requested t : Uuid)
    → Grants id check requested t
    → target_tenant id check requested ≡ ok t
unfolding target_tenant
target_tenant_complete id check requested t (by_platform a b c) = ground arith
target_tenant_complete id check requested t (by_partner a b c d e) =
    ground (arith, MayServe-linked id check t e)
target_tenant_complete id check requested t (by_tenant a b c d (inl e)) = ground arith
target_tenant_complete id check requested t (by_tenant a b c d (inr e)) = ground arith

own_tenant :
    (id : Identity) (check : Checker) (requested t : Uuid)
    → has_level platform_level id.roles ≡ false
    → has_level partner_level id.roles ≡ false
    → Grants id check requested t
    → id.tenant_id ≡ some t
own_tenant id check requested t p q (by_platform a b c) = cc
own_tenant id check requested t p q (by_partner a b c d e) = cc
own_tenant id check requested t p q (by_tenant a b c d e) = d

module _ (lib : UuidText) where
  -- `AuthorizeTargetTenant` names a tenant exactly when the request parses, or is empty, and the first
  -- role that the caller has, in the order platform, partner, tenant, grants that tenant: a platform
  -- role the tenant that is asked for, which has to be one; a partner role the same, unless there is
  -- a checker and the caller has a partner and the checker denies it; a tenant role the caller's own.
  pub authorize_target_tenant_iff :
      (id : Identity) (text : String) (check : Checker) (t : Uuid)
      → (authorize_target_tenant lib (some id) text check ≡ ok t)
        ↔ ((r : Option Uuid) × (requested_id lib text ≡ ok r) × Grants id check (uuid_or_nil r) t)
  unfolding authorize_target_tenant
  authorize_target_tenant_iff id text check t = (to, from)
    where
      to :
          (requested_id lib text >>= λ r. target_tenant id check (uuid_or_nil r)) ≡ ok t
          → (r : Option Uuid) × (requested_id lib text ≡ ok r) × Grants id check (uuid_or_nil r) t
      to e =
          let (r, parsed, granted) = >>=-eq-ok _ (requested_id lib text) e in
          (r, parsed, target_tenant_sound id check (uuid_or_nil r) t granted)

      from :
          (r : Option Uuid) × (requested_id lib text ≡ ok r) × Grants id check (uuid_or_nil r) t
          → (requested_id lib text >>= λ r. target_tenant id check (uuid_or_nil r)) ≡ ok t
      from (r, parsed, g) = rw parsed (target_tenant_complete id check (uuid_or_nil r) t g)

  -- A caller with no platform and no partner role never acts on a tenant but its own, whatever it
  -- asks for.
  pub authorize_target_tenant-isolates :
      (id : Identity) (text : String) (check : Checker) (t : Uuid)
      → has_level platform_level id.roles ≡ false
      → has_level partner_level id.roles ≡ false
      → authorize_target_tenant lib (some id) text check ≡ ok t
      → id.tenant_id ≡ some t
  authorize_target_tenant-isolates id text check t p q e =
      let (r, _, g) = (authorize_target_tenant_iff id text check t).0 e in
      own_tenant id check (uuid_or_nil r) t p q g
