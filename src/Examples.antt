-- ===== src/Examples.antt =====
-- Tests on concrete inputs, and the theorems applied to them.
mod Toy
mod Merkle
mod Log
mod Calls
mod Tenants
mod Scans
mod Reports
mod Logins
mod Addresses
mod Limits
mod Dispatches
mod Retries
mod Agents
mod Retested
mod Support
