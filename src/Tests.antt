-- ===== src/Tests.antt =====
-- The theorems at concrete inputs.
mod Data
mod Scopes
mod Lifecycle
mod Jobs
mod Oracles
mod Loops
mod CasesOf
mod Executions
mod ChainsOf
mod Audits
mod Safeties
mod UpdatesOf
mod Coverages
