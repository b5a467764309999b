-- ===== src/Jobs/Setting.antt =====
-- What surrounds the orchestrator of backend/internal/scanorch/orchestrator.go: the services attached to
-- it, and what a submission meets on its way.
use vaultscan.Prelude.{ℕ, Bool, Option, List, Bytes}
use vaultscan.ScopeGuard.Targets.{TextLib}
use vaultscan.ScopeGuard.{Decision, Db}
use vaultscan.Jobs.{Job, ScanProfile, SubmitError}
use vaultscan.Jobs.Images.{Digests}
use vaultscan.Jobs.Nodes.{Fleet}

-- The fields that the JSON text of `CanonicalManifest` has.
pub record Manifest : Type 0 where
  pub agent_id : Option ℕ
  pub engagement_id : ℕ
  pub job_id : ℕ
  pub plane : Bytes
  pub profile : Bytes
  pub targets : List Bytes
  pub tenant_id : ℕ
  pub tools : List Bytes

-- json.Marshal and the signer, whose answer is none on an error.
pub record Signing : Type 0 where
  pub marshal : Manifest → Bytes
  pub sign : Bytes → Option Bytes
  pub key_id : Bytes

-- The services that are attached to an orchestrator; none stands for a nil pointer.
pub record Orchestrator : Type 0 where
  pub lib : TextLib
  pub signing : Signing
  pub digests : Option Digests
  pub fallback_registry : Bytes
  pub residency : Option (ℕ → Bytes → Bool)
  pub pod_region : Bytes
  pub billing : Option (ℕ → Bool)
  pub profile_by_code : Bytes → Option ScanProfile
  pub fleet : Fleet

-- What one call of the scope guard meets: the time, its tables, and the jobs that others have inserted
-- since the submission began.
pub record Instant : Type 0 where
  pub now : ℕ
  pub db : Db
  pub others : List Job

-- What a submission meets on its way: at the check of each target, by its position; when it inserts, the
-- time, the tables and the jobs that others have inserted by then; and the identifier that it draws.
pub record Moment : Type 0 where
  pub checks : ℕ → Instant
  pub later : ℕ
  pub db_later : Db
  pub raced : List Job
  pub new_id : ℕ

-- `denied_late` is the decision blocked_missing_auth of the INSERT that stores nothing.
pub data Outcome : Type 0 where
  denied_late : Outcome
  failed : SubmitError → Outcome
  denied : Decision → Outcome
  submitted : Job → Option Decision → Outcome
