-- ===== src/Workflow.antt =====
-- backend/workflows: the lifecycle of a workflow and the runtimes around it.
pub mod Status
pub mod Graph
pub mod Database
pub mod Runtime
pub mod Recovery
pub mod Rollback
pub mod Calls
pub mod Approvals
pub mod Lease
pub mod Snapshots
pub mod Orchestrator
pub mod ResumeValidator
pub mod Retries
pub mod DeadLetter
pub mod RetryCoordinator
