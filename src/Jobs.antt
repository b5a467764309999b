-- ===== src/Jobs.antt =====
-- backend/internal/scanorch/orchestrator.go: the life of a scan job, from its submission to its dispatch
-- and its stop. The store is the rows of scan_jobs and of the tables beside it.
pub mod Targets
pub mod Nodes
pub mod Images
pub mod Setting
pub mod Submit
pub mod Control
pub mod Stages
pub mod Dispatch
pub mod Stored
pub mod Retry
pub mod Worker
pub mod Stop
pub mod Complete
pub mod Ladder
use vaultscan.Prelude.{ℕ, Bool, Option, List, Bytes}
use vaultscan.ScopeGuard.{LogRow}

-- The states of scan_jobs.status that the backend itself writes, and what else an agent reports.
pub data JobStatus : Type 0 where
  pending approved dispatched running succeeded failed stopped : JobStatus
  reported : Bytes → JobStatus

pub record Job : Type 0 where
  pub id : ℕ
  pub partner_id : ℕ
  pub tenant_id : ℕ
  pub engagement_id : ℕ
  pub profile_id : ℕ
  pub profile_code : Bytes
  pub plane : Bytes
  pub region : Bytes
  pub agent_id : Option ℕ
  pub scanner_node_id : Option ℕ
  pub status : JobStatus
  pub targets : List Bytes
  pub requires_approval : Bool
  pub requested_by : Option ℕ
  pub approved_by : Option ℕ
  pub job_signature : Bytes
  pub signing_key_id : Bytes
  pub idempotency_key : Bytes
  pub cancellation_reason : Bytes
  pub created_at : ℕ

-- A row of scan_tasks, and one of agent_job_queue.
pub record Task : Type 0 where
  pub scan_job_id : ℕ
  pub tool : Bytes
  pub image_ref : Bytes

pub record Queued : Type 0 where
  pub agent_id : ℕ
  pub scan_job_id : ℕ

-- The last field is scope_decision_logs.
pub record JobStore : Type 0 where
  pub jobs : List Job
  pub tasks : List Task
  pub queue : List Queued
  pub decisions : List LogRow

-- The columns of scan_profiles that a submission reads.
pub record ScanProfile : Type 0 where
  pub id : ℕ
  pub code : Bytes
  pub plane : Bytes
  pub tools : List Bytes
  pub requires_approval : Bool

pub record SubmitInput : Type 0 where
  pub partner_id : ℕ
  pub tenant_id : ℕ
  pub engagement_id : ℕ
  pub profile_code : Bytes
  pub plane : Bytes
  pub region : Bytes
  pub agent_id : Option ℕ
  pub targets : List Bytes
  pub requested_by : Option ℕ
  pub intensity : Bytes
  pub idempotency_key : Bytes

pub data SubmitError : Type 0 where
  no_targets residency_violation quota_exceeded unknown_profile wrong_plane guard_failed :
      SubmitError
  no_scanner_node not_signed insert_failed unpinned_image not_pending : SubmitError
