-- ===== src/Workflow/Orchestrator/Calls.antt =====
-- Sequences of calls of the runtimes of backend/workflows that share workflows, approvals and
-- snapshots.
use the_dashboard.Common.{ℕ, String, Bool, Option, List, [], ◌∷◌}
use the_dashboard.Workflow.Database.{ApprovalType, RiskLevel, Db}
use the_dashboard.Workflow.Calls
use the_dashboard.Workflow.Calls.{Call}
use the_dashboard.Workflow.Approvals.Single
use the_dashboard.Workflow.Approvals.Single.{GateCall}
use the_dashboard.Workflow.Snapshots
use the_dashboard.Workflow.Orchestrator

pub data Act : Type 0 where
  runtime : Call → Act
  gate : GateCall → Act
  take : (snapshot_id captured_at now workflow_id : ℕ) (trigger : Option String) → Act
  restore : (snapshot_id : ℕ) (actor_id : Option ℕ) → Act
  pause_for_approval :
      (snapshot_id approval_id captured_at now workflow_id : ℕ)
      → ApprovalType
      → (requested_by : Option ℕ) → RiskLevel
      → (expires_at : Option ℕ) (take_snapshot : Bool) → Act
  resume_on_approval : (approval_id resolved_by : ℕ) (notes : String) (now : ℕ) → Act
  rollback_on_rejection :
      (approval_id workflow_id : ℕ) (resolved_by : Option ℕ) (reason : String) → Act

-- The tables after a call; `str` gives the text of an identifier.
unfoldable pub perform : (str : ℕ → String) → Act → Db → Db
perform str (Act.runtime c) db = Calls.perform str c db
perform str (Act.gate c) db = Single.perform c db
perform str (Act.take snapshot at now id trigger) db =
    (Snapshots.take snapshot at now id trigger db).1
perform str (Act.restore snapshot actor) db = (Snapshots.restore snapshot actor db).1
perform str (Act.pause_for_approval snapshot approval at now id t by risk until taken) db =
    (Orchestrator.pause_for_approval snapshot approval at now id t by risk until taken db).1
perform str (Act.resume_on_approval approval by notes now) db =
    (Orchestrator.resume_on_approval approval by notes now db).1
perform str (Act.rollback_on_rejection approval id by reason) db =
    (Orchestrator.rollback_on_rejection str approval id by reason db).1

unfoldable pub serve : (str : ℕ → String) → List Act → Db → Db
serve str [] db = db
serve str (c ∷ cs) db = serve str cs (perform str c db)
