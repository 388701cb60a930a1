-- ===== src/Workflow/Orchestrator/Pauses.antt =====
-- The tables after `pause_for_approval` (backend/workflows/approval_orchestrator.py).
use the_dashboard.Common.{
  ℕ, true, false, Option, some, [], ◌∷◌, ◌++◌, ◌≡◌, refl, any_of, get_row-snoc_self,
  get_row-unkeyed_or, put_row, returned, ◌==◌, ◌&&◌,
}
use the_dashboard.Workflow.Status.{active, paused, same_status}
use the_dashboard.Workflow.Database.{
  user, Workflow, Approval, ApprovalType, RiskLevel, Session, approval_requested, snapshot_taken,
  lifecycle_paused, Db, get_by_id, save, append_event,
}
use the_dashboard.Workflow.Database.Rows.{get_by_id-put_row}
use the_dashboard.Workflow.Approvals.{
  same_type, is_pending, blocks, approvals_of, clashes, new_approval, insert_approval,
  request_approval, has_expired,
}
use the_dashboard.Workflow.Approvals.Resolved.{approval_of, IsResolvableAt}
use the_dashboard.Workflow.Snapshots.{capture, new_snapshot, text_of, take}
use the_dashboard.Workflow.Orchestrator.{
  LifecycleOutcome, ApprovalLifecycleResult, snapshot_if, pause_for_approval,
}

-- The arguments of a pause with a snapshot.
pub record Pause : Type 0 where
  pub snapshot_id : ℕ
  pub approval_id : ℕ
  pub captured_at : ℕ
  pub now : ℕ
  pub workflow_id : ℕ
  pub approval_type : ApprovalType
  pub requested_by : Option ℕ
  pub risk_level : RiskLevel
  pub expires_at : Option ℕ

abbrev pub pause : Pause → Session ApprovalLifecycleResult
pause c =
    pause_for_approval c.snapshot_id c.approval_id c.captured_at c.now c.workflow_id c.approval_type
      c.requested_by c.risk_level c.expires_at true

-- The approval that it asks for.
abbrev pub asked : Pause → Approval
asked c =
    new_approval c.approval_id c.workflow_id c.approval_type c.requested_by c.risk_level
      c.expires_at

module _ (c : Pause) where
  abbrev pub report : LifecycleOutcome → Option ℕ → ApprovalLifecycleResult
  report outcome snapshot = record {
    workflow_id = c.workflow_id;
    approval_id = c.approval_id;
    outcome = outcome;
    snapshot_id = snapshot;
  }

  abbrev pub pause_row : Workflow → Workflow
  pause_row w = record w { workflow_status = paused }

  -- When an active workflow can be paused for the approval.
  pub record IsReady (db : Db) (w : Workflow) : Type 0 where
    pub found : get_by_id c.workflow_id db ≡ some w
    pub on : same_status w.workflow_status active ≡ true
    pub fresh : any_of (λ s. s.id == c.snapshot_id) db.snapshots ≡ false
    pub free : any_of (blocks c.approval_type) (approvals_of c.workflow_id db) ≡ false
    pub fine : clashes (asked c) db ≡ false

  -- The tables after the pause.
  abbrev pub paused_db : Workflow → Db → Db
  paused_db w db = record db {
    snapshots =
        db.snapshots
        ++ new_snapshot c.snapshot_id c.captured_at w (capture w c.now db)
            (some "approval_requested")
          ∷ [];
    approvals = db.approvals ++ asked c ∷ [];
    workflows = put_row (λ v. v.id) (pause_row w) db.workflows;
    events =
        db.events
        ++ record {
          workflow_id = c.workflow_id;
          body = approval_requested c.approval_id c.approval_type c.risk_level;
          actor_type = user;
          actor_id = c.requested_by;
          correlation_id = w.correlation_id;
        }
          ∷ [];
    domain_events =
        (db.domain_events
          ++ record {
            body =
                snapshot_taken c.workflow_id c.snapshot_id (text_of w.workflow_status)
                  (some "approval_requested");
            correlation_id = some w.correlation_id;
          }
            ∷ [])
        ++ record {
          body = lifecycle_paused c.workflow_id c.approval_id c.approval_type (some c.snapshot_id);
          correlation_id = some w.correlation_id;
        }
          ∷ [];
  }

  pub get_by_id-paused_db :
      (db : Db) (w : Workflow)
      → get_by_id c.workflow_id db ≡ some w
      → get_by_id c.workflow_id (paused_db w db) ≡ some (pause_row w)
  get_by_id-paused_db db w found =
      get_by_id-put_row db c.workflow_id w found (paused_db w db) (pause_row w) refl refl refl

  pub pause_for_approval-paused :
      (db : Db) (w : Workflow)
      → IsReady db w
      → pause c db
        ≡ (returned (report LifecycleOutcome.paused (some c.snapshot_id)), paused_db w db)
  unfolding pause_for_approval snapshot_if take request_approval insert_approval save append_event
      approvals_of
  pause_for_approval-paused db w r = rw r.found (
      rw r.fresh
        (rw r.found (rw r.on (rw r.free (rw r.fine (rw (get_by_id-paused_db db w r.found) refl))))))

  -- The approval that the pause asked for.
  pub approval_of-paused_db :
      (db : Db) (w : Workflow)
      → clashes (asked c) db ≡ false
      → approval_of c.approval_id (paused_db w db) ≡ some (asked c)
  approval_of-paused_db db w fine =
      rw
        (get_row-snoc_self (λ b. b.id) db.approvals (asked c)
          (get_row-unkeyed_or (λ b. b.id) c.approval_id
            (λ b.
              b.workflow_id == c.workflow_id
              && same_type b.approval_type c.approval_type
              && is_pending b.approval_status)
            db.approvals fine))
        refl

  pub ready_to_resolve :
      (later : ℕ) (db : Db) (w : Workflow)
      → IsReady db w
      → has_expired c.expires_at later ≡ false
      → has_expired w.expires_at later ≡ false
      → IsResolvableAt later c.approval_id (paused_db w db) (asked c) (pause_row w)
  ready_to_resolve later db w r fresh in_time = record {
    found = approval_of-paused_db db w r.fine;
    waits = refl;
    fresh = fresh;
    here = get_by_id-paused_db db w r.found;
    stopped = refl;
    in_time = in_time;
  }
