-- ===== src/Workflow/Orchestrator.antt =====
-- backend/workflows/approval_orchestrator.py: pausing a workflow for an approval, with a snapshot,
-- and resuming or cancelling it. The proofs are in the modules below this one.
pub mod Kept
pub mod Calls
pub mod Restored
pub mod Pauses
pub mod Rounds
pub mod Rejected
use the_dashboard.Common.{
  ℕ, String, Bool, true, Option, none, some, pure, gets, or_raise, ◌>>=◌, ◌>>◌, if◌then◌else◌,
}
use the_dashboard.Workflow.Database.{
  Workflow, Approval, ApprovalType, ApprovalStatus, RiskLevel, lifecycle_paused, lifecycle_resumed,
  lifecycle_rejected, Db, Session, get_by_id_or_raise, emit,
}
use the_dashboard.Workflow.Rollback.{rollback_on_approval_rejection}
use the_dashboard.Workflow.Approvals.{
  request_approval, resolve, get_approval_or_raise, save_approval,
}
use the_dashboard.Workflow.Snapshots
use the_dashboard.Workflow.Snapshots.{SnapshotResult}

pub data LifecycleOutcome : Type 0 where
  paused resumed rejected : LifecycleOutcome

pub record ApprovalLifecycleResult : Type 0 where
  pub workflow_id : ℕ
  pub approval_id : ℕ
  pub outcome : LifecycleOutcome
  pub snapshot_id : Option ℕ

-- `if take_snapshot: …`
unfoldable pub snapshot_if :
    (take_snapshot : Bool) (snapshot_id captured_at now workflow_id : ℕ) → Session (Option ℕ)
snapshot_if take_snapshot snapshot_id captured_at now workflow_id =
    if take_snapshot
    then (do
      snap ← Snapshots.take snapshot_id captured_at now workflow_id (some "approval_requested")
      pure (some snap.snapshot_id))
    else pure none

-- `ApprovalPauseOrchestrator.pause_for_approval`; the snapshot and the approval get the identifiers
-- `snapshot_id` and `approval_id`.
unfoldable pub pause_for_approval :
    (snapshot_id approval_id captured_at now workflow_id : ℕ)
    → ApprovalType
    → (requested_by : Option ℕ) → RiskLevel
    → (expires_at : Option ℕ) (take_snapshot : Bool) → Session ApprovalLifecycleResult
unfolding snapshot_if get_by_id_or_raise emit
pause_for_approval snapshot_id approval_id captured_at now workflow_id approval_type requested_by
      risk_level expires_at take_snapshot =
    do
      snap_id ← snapshot_if take_snapshot snapshot_id captured_at now workflow_id
      approval ←
          request_approval approval_id workflow_id approval_type requested_by risk_level expires_at
      wf ← get_by_id_or_raise workflow_id
      emit (lifecycle_paused workflow_id approval.id approval_type snap_id) (some wf.correlation_id)
      pure (record {
        workflow_id = workflow_id;
        approval_id = approval.id;
        outcome = LifecycleOutcome.paused;
        snapshot_id = snap_id;
      })

-- `ApprovalPauseOrchestrator.resume_on_approval`
unfoldable pub resume_on_approval :
    (approval_id resolved_by : ℕ) (notes : String) (now : ℕ) → Session ApprovalLifecycleResult
unfolding get_approval_or_raise get_by_id_or_raise emit
resume_on_approval approval_id resolved_by notes now = do
  approval ← get_approval_or_raise approval_id
  resolved ← resolve approval_id resolved_by true notes now
  wf ← get_by_id_or_raise approval.workflow_id
  emit (lifecycle_resumed approval.workflow_id approval_id resolved_by) (some wf.correlation_id)
  pure (record {
    workflow_id = approval.workflow_id;
    approval_id = approval_id;
    outcome = LifecycleOutcome.resumed;
    snapshot_id = none;
  })

-- `if resolved_by: …`
abbrev pub or_kept : Option ℕ → Option ℕ → Option ℕ
or_kept none old = old
or_kept (some by) old = some by

-- The row that `rollback_on_rejection` writes.
abbrev pub rejection : (resolved_by : Option ℕ) (reason : String) → Approval → Approval
rejection resolved_by reason a = record a {
  approval_status = ApprovalStatus.rejected;
  resolved_by = or_kept resolved_by a.resolved_by;
  resolution_notes = some reason;
}

-- `ApprovalPauseOrchestrator.rollback_on_rejection`; `str` gives the text of an identifier.
unfoldable pub rollback_on_rejection :
    (str : ℕ → String) (approval_id workflow_id : ℕ) (resolved_by : Option ℕ) (reason : String)
    → Session ApprovalLifecycleResult
unfolding get_approval_or_raise save_approval get_by_id_or_raise emit
rollback_on_rejection str approval_id workflow_id resolved_by reason = do
  approval ← get_approval_or_raise approval_id
  save_approval (rejection resolved_by reason approval)
  result ← rollback_on_approval_rejection str approval_id workflow_id resolved_by reason
  wf ← get_by_id_or_raise workflow_id
  emit (lifecycle_rejected workflow_id approval_id resolved_by reason) (some wf.correlation_id)
  pure (record {
    workflow_id = workflow_id;
    approval_id = approval_id;
    outcome = LifecycleOutcome.rejected;
    snapshot_id = none;
  })
