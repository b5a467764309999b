-- ===== src/Lib.antt =====
-- VaultScan: a multi-tenant service for vulnerability scans. This library models the parts of its
-- Go backend and its agent that decide what may happen and what is on record.
--
-- The parts, the code they stand for (paths from the repository's root) and how they interact:
--   * Audit (backend/internal/audit/audit.go, ops.go): the table audit_logs is the list of its rows
--     by id. `record_entry` is `Record`; `compute_row_hash` is computeRowHash; the children hold
--     VerifyDeep, VerifyIncremental and VerifyTail (`verify_deep`, `verify_incremental`,
--     `verify_tail`) and the proofs. Most other services write to this table.
--   * Rekor (backend/internal/cosign/rekor_inclusion.go): `verify_inclusion` is VerifyInclusion, over
--     the tree hash and the audit path that RFC 6962 defines (Rekor/Tree).
--   * Breaker (backend/internal/circuitbreaker/breaker.go): `call` is Call with no other goroutine
--     between its steps; Breaker/Threads has the steps of several goroutines in any order.
--   * TenantScope (backend/internal/auth/tenant_scope.go): `authorize_target_tenant` and
--     `authorize_optional_tenant`, which the handlers call before a service.
--   * ScopeGuard (backend/internal/scopeguard/scopeguard.go): `evaluate` is Evaluate, which the scan
--     orchestrator asks before every scan; ScopeGuard/Targets has matches and hostFromURL,
--     ScopeGuard/Windows checkWindow and checkBlackouts.
--   * Findings (backend/internal/findings/service.go, ops.go): the store of findings with its history,
--     clusters and suppression rules; Findings/Lifecycle has the states and the table of their moves,
--     Findings/Ingest Upsert and what it calls. Row-level security is not modelled: the store is the
--     rows that the session may see.
--   * Mfa (backend/internal/auth/totp.go): the second factor of a login; `verify` is Verify, Mfa/Totp has
--     verifyTOTP and hotp.
--   * Shield (backend/internal/auth/bruteforce.go): the lockout of an address; `record_failure` is
--     RecordFailure, `sweep_expired` SweepExpired.
--   * RateLimit (backend/internal/middleware/ratelimit.go): `wrap` and `wrap_tenant` are the middlewares'
--     Wrap, `allow_redis` RedisLimiter.Allow with its script `sliding_window` on the one pooled
--     connection (`exchange`) that calls one after the other use; RateLimit/Sliding is
--     the list of charges that never forgets, which they are compared with.
--   * Jobs (backend/internal/scanorch/orchestrator.go, nodes.go, image_digests.go;
--     backend/internal/scanner/worker.go): the life of a scan job. Jobs/Submit has `submit`, which is Submit
--     and asks ScopeGuard about every target; Jobs/Control what changes a stored job, Jobs/Nodes the choice
--     of a scanner node, Jobs/Worker the check of the signature.
--   * Idempotency (backend/internal/middleware/idempotency.go): `intercept` is the middleware up to the
--     handler, `insert_key` and `look` the two statements of claim; Idempotency/Steps has the
--     interleavings of many requests.
--   * LocalAgent (agent/cmd/agent/main.go, agent/internal/policy/policy.go, runner/runner.go): what an agent
--     does with a job that Jobs has queued for it; `execute` is its execute, LocalAgent/Policy the local
--     policy, LocalAgent/Runner the command for a tool.
--   * Retest (backend/internal/retesting/service.go): the retest of a finding, over the rows of Findings
--     and Jobs: `request`, `assign_retest`, `record_result` and `launch_scan`.
--   * Impersonation (backend/internal/impersonation/service.go, middleware/middleware_impersonation.go): the
--     sessions of support engineers; `start_session`, `end_session`, `touch` and `active_sessions` are the
--     methods of the service, `enforce` the middleware.
--   * Prelude: numbers, lists, texts and results that the parts share. Examples: tests, and each
--     theorem at a concrete input.
--
-- Conventions. A UUID and a time are natural numbers, an int64 that may be negative is an integer of
-- Prelude/Int. A text that is hashed is the list of its bytes. Where the code calls what is not in the repository
-- (sha256, uuid.Parse, the text of a time), the model takes a parameter; what is proved holds for
-- every function in its place, up to two texts with one digest where a digest has to bind.
--
-- Fuel. The inner loop of VerifyInclusion halves a number, so that its value is enough; the loop over
-- pages reads a full page each round but the last, so that one page more than there are rows is
-- enough. Both are proved (Rekor/Rounds, Audit/Pages).
--
-- Not modelled: I/O (HTTP, Postgres, S3; Redis is a parameter of RateLimit), logging and metrics that decide nothing, and the
-- error returns of a failing query in the verifiers, which give no verdict.
pub mod Prelude
pub mod Rekor
pub mod Audit
pub mod Breaker
pub mod TenantScope
pub mod ScopeGuard
pub mod Findings
pub mod Mfa
pub mod Shield
pub mod RateLimit
pub mod Jobs
pub mod Idempotency
pub mod LocalAgent
pub mod Retest
pub mod Impersonation
mod Examples
