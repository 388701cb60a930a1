-- ===== src/Tests/Orchestrator.antt =====
-- Runs of the snapshots, the approval orchestrator and the resume validator
-- (backend/workflows/snapshot.py, approval_orchestrator.py and resume_validator.py) on concrete
-- tables.
use the_dashboard.Common.{true, none, some, [], ◌∷◌, List, ◌≡◌, refl, returned, raised}
use the_dashboard.Workflow.Status.{failed, active, paused, cancelled, validate_transition}
use the_dashboard.Workflow.Database.{
  user, ApprovalType, ApprovalStatus, RiskLevel, Db, empty_db, get_by_id, not_resolvable,
  restore_terminal,
}
use the_dashboard.Workflow.Runtime
use the_dashboard.Workflow.Calls
use the_dashboard.Workflow.Calls.{Call}
use the_dashboard.Workflow.Recovery.{resume_failed}
use the_dashboard.Workflow.Approvals.{approvals_of, resolve, request_approval, insert_approval}
use the_dashboard.Workflow.Recovery.{get_latest}
use the_dashboard.Workflow.Lease.{get_active}
use the_dashboard.Workflow.ResumeValidator.{checkpoint_restore, ResumeValidation, examine, validate}
use the_dashboard.Workflow.ResumeValidator.Advice.{IsSound, validate-advice}
use the_dashboard.Workflow.Snapshots.{take, restore}
use the_dashboard.Workflow.Orchestrator.{
  LifecycleOutcome, pause_for_approval, resume_on_approval, rollback_on_rejection,
}
use the_dashboard.Workflow.Orchestrator.Calls.{Act, perform, serve}
use the_dashboard.Workflow.Orchestrator.Restored.{restore-serve}
use the_dashboard.Workflow.Orchestrator.Pauses.{Pause, pause, IsReady}
use the_dashboard.Workflow.Orchestrator.Rounds.{resume_on_approval-pause_for_approval}
use the_dashboard.Workflow.Orchestrator.Rejected.{restore-rollback_on_rejection}
use the_dashboard.Tests.Workflow.{str, row}

abbrev one_active : Db
one_active = record empty_db { workflows = row active ∷ [] }

abbrev offer : Pause
offer = record {
  snapshot_id = 3;
  approval_id = 5;
  captured_at = 20;
  now = 30;
  workflow_id = 1;
  approval_type = ApprovalType.offer;
  requested_by = some 7;
  risk_level = RiskLevel.low;
  expires_at = some 90;
}

abbrev ready : IsReady offer one_active (row active)
ready =
    unfold get_by_id approvals_of in
    record { found = refl; on = refl; fresh = refl; free = refl; fine = refl }

-- The workflow fails and is resumed after the snapshot.
abbrev acts : List Act
acts =
    Act.runtime (Call.fail 1 "timeout" user none)
    ∷ Act.take 4 21 31 1 none
    ∷ Act.runtime (Call.resume_failed 1 none)
    ∷ Act.pause_for_approval 6 5 22 32 1 ApprovalType.offer none RiskLevel.low none true
    ∷ []

paused_after : get_by_id 1 (serve str acts (take 3 20 30 1 none one_active).1) ≡ some (row paused)
unfolding serve perform Calls.perform Runtime.fail resume_failed take pause_for_approval get_by_id
    approvals_of validate_transition request_approval insert_approval
paused_after = refl

restore-serve_example :
    let db' = serve str acts (take 3 20 30 1 none one_active).1 in
    ((restore 3 none db').0 ≡ (take 3 20 30 1 none one_active).0)
    × (get_by_id 1 (restore 3 none db').1
        ≡ some (record (row paused) { workflow_status = active; current_step = some "contacted" }))
restore-serve_example =
    restore-serve str acts 3 20 30 1 none none (row active) (row paused) one_active
      (unfold get_by_id in refl) refl paused_after refl

resume_on_approval-pause_for_approval_example :
    let p = pause offer one_active in
    let r = resume_on_approval 5 8 "fine" 40 p.1 in
    (p.0
      ≡ returned (record {
        workflow_id = 1;
        approval_id = 5;
        outcome = LifecycleOutcome.paused;
        snapshot_id = some 3;
      }))
    × (get_by_id 1 p.1 ≡ some (record (row active) { workflow_status = paused }))
    × (r.0
        ≡ returned (record {
          workflow_id = 1;
          approval_id = 5;
          outcome = LifecycleOutcome.resumed;
          snapshot_id = none;
        }))
    × (get_by_id 1 r.1 ≡ some (row active))
resume_on_approval-pause_for_approval_example =
    resume_on_approval-pause_for_approval offer 8 "fine" 40 one_active (row active) ready refl refl

restore-rollback_on_rejection_example :
    let p = pause offer one_active in
    let r = rollback_on_rejection str 5 1 (some 8) "no" p.1 in
    (r.0
      ≡ returned (record {
        workflow_id = 1;
        approval_id = 5;
        outcome = LifecycleOutcome.rejected;
        snapshot_id = none;
      }))
    × (get_by_id 1 r.1 ≡ some (record (row active) { workflow_status = cancelled }))
    × (restore 3 none r.1 ≡ (raised (restore_terminal cancelled), r.1))
    × (resolve 5 9 true "yes" 40 r.1 ≡ (raised (not_resolvable 5 ApprovalStatus.rejected), r.1))
restore-rollback_on_rejection_example =
    restore-rollback_on_rejection str offer (some 8) "no" none 9 true "yes" 40 one_active
      (row active) ready

-- A failed workflow with a checkpoint.
abbrev one_failed : Db
one_failed = record empty_db {
  workflows = row failed ∷ [];
  checkpoints =
      record { workflow_id = 1; step = "qualified"; status_at_checkpoint = active; payload = [] }
      ∷ [];
}

failed_is_restorable :
    (validate 1 30 one_failed).0
    ≡ returned (record {
      workflow_id = 1;
      can_resume = true;
      recommended_strategy = checkpoint_restore;
      blockers = [];
      warnings = [];
    })
unfolding validate examine get_latest approvals_of get_active get_by_id
failed_is_restorable = refl

validate-advice_example :
    (v : ResumeValidation) × (validate 1 30 one_failed ≡ (returned v, one_failed))
    × IsSound 1 one_failed (row failed) user (some 7) v
validate-advice_example =
    validate-advice 1 30 user (some 7) one_failed (row failed) (unfold get_by_id in refl)
