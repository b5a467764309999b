-- ===== src/LocalAgent.antt =====
-- The agent in a customer's network (agent/cmd/agent/main.go, agent/internal/policy/policy.go,
-- agent/internal/runner/runner.go): the second line of defence behind the scope guard.
pub mod Policy
pub mod Runner
pub mod Execute
pub mod Gates
pub mod Ends
