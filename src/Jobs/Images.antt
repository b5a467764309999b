-- ===== src/Jobs/Images.antt =====
-- The images of the tools (backend/internal/scanorch/image_digests.go, and imageRefFor of orchestrator.go).
use vaultscan.Prelude.{
  Bool, Option, none, some, [], ◌∷◌, ◌++◌, Bytes, codes, bytes_equal, if◌then◌else◌,
}

-- `ImageDigestRegistry`: a tool with no entry has none.
pub record Digests : Type 0 where
  pub digests : Bytes → Option Bytes
  pub registry : Bytes
  pub strict : Bool

abbrev pub or_default : Bytes → Bytes → Bytes
or_default [] fallback = fallback
or_default (c ∷ s) fallback = c ∷ s

abbrev pub latest : Bytes → Bytes → Bytes
latest registry tool = registry ++ codes "/" ++ tool ++ codes ":latest"

-- `ImageRefForStrict`; none is ErrNoDigest.
unfoldable pub image_ref_for_strict : Digests → Bytes → Bytes → Option Bytes
image_ref_for_strict d tool fallback = elim (d.digests tool) [
  | none ↦ none
  | some digest ↦
      if bytes_equal digest []
      then none
      else some (or_default d.registry fallback ++ codes "/" ++ tool ++ codes "@" ++ digest)
]

-- `ImageRefFor`
unfoldable pub image_ref_lax : Digests → Bytes → Bytes → Bytes
image_ref_lax d tool fallback =
    let registry = or_default d.registry fallback in
    elim (d.digests tool) [
      | none ↦ latest registry tool
      | some digest ↦
          if bytes_equal digest []
          then latest registry tool
          else registry ++ codes "/" ++ tool ++ codes "@" ++ digest
    ]

-- `imageRefFor` of an orchestrator with these digests, if any, and this fallback registry.
unfoldable pub image_ref_for : Option Digests → Bytes → Bytes → Option Bytes
image_ref_for none registry tool =
    some (latest (or_default registry (codes "registry.zaishield.com/vaultscan/scanners")) tool)
image_ref_for (some d) registry tool =
    let fallback = or_default registry (codes "registry.zaishield.com/vaultscan/scanners") in
    if d.strict then image_ref_for_strict d tool fallback else some (image_ref_lax d tool fallback)
