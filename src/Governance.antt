-- ===== src/Governance.antt =====
-- backend/governance: the append-only governance event log and the runtimes that read it.
pub mod Events
pub mod Freeze
pub mod Quorum
pub mod Delegation
pub mod Policy
pub mod Engine
pub mod Glob
pub mod Evaluator
pub mod Enforcement
