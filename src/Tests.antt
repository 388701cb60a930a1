-- ===== src/Tests.antt =====
-- Runs of the models on concrete inputs.
pub mod Governance
pub mod Workflow
pub mod Retries
pub mod Transcripts
pub mod Approvals
pub mod Context
pub mod Budgets
pub mod Delegations
pub mod Policies
pub mod Evaluation
pub mod Research
pub mod Ai
pub mod Graph
pub mod Spec
pub mod Orchestrator
