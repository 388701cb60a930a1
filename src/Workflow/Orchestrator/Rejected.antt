-- ===== src/Workflow/Orchestrator/Rejected.antt =====
-- A pause that ends in `rollback_on_rejection` (backend/workflows/approval_orchestrator.py).
use the_dashboard.Common.{
  ℕ, String, false, Bool, Option, none, some, [], ◌∷◌, ◌++◌, ◌≡◌, refl, sym, subst, get_row,
  get_row-snoc_self, get_row-unkeyed, get_row-unkeyed_or, get_row-put_row_self, put_row, returned,
  raised,
}
use the_dashboard.Workflow.Status.{paused, cancelled, is_terminal}
use the_dashboard.Workflow.Database.{
  system, Workflow, ApprovalStatus, lifecycle_rejected, Db, get_by_id, get_by_id_or_raise,
  not_resolvable, restore_terminal, emit,
}
use the_dashboard.Workflow.Database.Rows.{get_by_id-put_row, get_by_id-id}
use the_dashboard.Workflow.Rollback.{rejected_actions, rollback_on_approval_rejection}
use the_dashboard.Workflow.Rollback.Drift.{cancel_row}
use the_dashboard.Workflow.Rollback.Coordination.{coordinated, coordinate-live}
use the_dashboard.Workflow.Approvals.{resolve, get_approval_or_raise, save_approval}
use the_dashboard.Workflow.Approvals.Resolved.{approval_of}
use the_dashboard.Workflow.Snapshots.{capture, new_snapshot, restore}
use the_dashboard.Workflow.Orchestrator.{LifecycleOutcome, rejection, rollback_on_rejection}
use the_dashboard.Workflow.Orchestrator.Pauses.{
  Pause, pause, asked, report, pause_row, IsReady, paused_db, get_by_id-paused_db,
  pause_for_approval-paused, approval_of-paused_db,
}

module _ (c : Pause) where
  -- The tables after the rejection; `str` gives the text of an identifier.
  abbrev rejected_db : (str : ℕ → String) (who : Option ℕ) (reason : String) → Workflow → Db → Db
  rejected_db str who reason w db =
      let d =
        coordinated c.workflow_id (pause_row c w) reason "approval_rejected" system who
          (rejected_actions str c.approval_id who reason)
          (record (paused_db c w db) {
            approvals =
                put_row (λ b. b.id) (rejection who reason (asked c)) (paused_db c w db).approvals;
          }) in
      record d {
        domain_events =
            d.domain_events
            ++ record {
              body = lifecycle_rejected c.workflow_id c.approval_id who reason;
              correlation_id = some w.correlation_id;
            }
              ∷ [];
      }

  module _ (str : ℕ → String) (who : Option ℕ) (reason : String) (db : Db) (w : Workflow)
      (r : IsReady c db w) where
    get_by_id-rejected_db :
        get_by_id c.workflow_id (rejected_db str who reason w db) ≡ some (cancel_row w)
    get_by_id-rejected_db =
        get_by_id-put_row (paused_db c w db) c.workflow_id (pause_row c w)
          (get_by_id-paused_db c db w r.found) (rejected_db str who reason w db) (cancel_row w) refl
          refl refl

    rollback_on_rejection-rejected :
        rollback_on_rejection str c.approval_id c.workflow_id who reason (paused_db c w db)
        ≡ (returned (report c LifecycleOutcome.rejected none), rejected_db str who reason w db)
    unfolding rollback_on_rejection rollback_on_approval_rejection get_approval_or_raise
        save_approval get_by_id_or_raise emit
    rollback_on_rejection-rejected =
        let saved : Db = record (paused_db c w db) {
          approvals =
              put_row (λ b. b.id) (rejection who reason (asked c)) (paused_db c w db).approvals;
        } in
        let found : get_by_id c.workflow_id saved ≡ some (pause_row c w) =
          get_by_id-put_row db c.workflow_id w r.found saved (pause_row c w) refl refl refl in
        let live : is_terminal paused ≡ false = unfold is_terminal in refl in
        rw (approval_of-paused_db c db w r.fine) (
          rw
            (coordinate-live c.workflow_id reason "approval_rejected" system who
              (rejected_actions str c.approval_id who reason) saved (pause_row c w) found live)
            (rw get_by_id-rejected_db refl))

    approval_of-rejected_db :
        approval_of c.approval_id (rejected_db str who reason w db)
        ≡ some (rejection who reason (asked c))
    approval_of-rejected_db =
        let a = asked c in
        let row : get_row (λ b. b.id) c.approval_id (paused_db c w db).approvals ≡ some a =
          get_row-snoc_self (λ b. b.id) db.approvals a
            (get_row-unkeyed_or (λ b. b.id) c.approval_id _ db.approvals r.fine) in
        rw
          (get_row-put_row_self (λ b. b.id) (rejection who reason a) (paused_db c w db).approvals a
            row)
          refl

    resolve-rejected_db :
        (actor : ℕ) (verdict : Bool) (notes : String) (later : ℕ)
        → let d = rejected_db str who reason w db in
          resolve c.approval_id actor verdict notes later d
          ≡ (raised (not_resolvable c.approval_id ApprovalStatus.rejected), d)
    unfolding resolve get_approval_or_raise
    resolve-rejected_db actor verdict notes later = rw approval_of-rejected_db refl

    restore-rejected_db :
        (actor : Option ℕ)
        → let d = rejected_db str who reason w db in
          restore c.snapshot_id actor d ≡ (raised (restore_terminal cancelled), d)
    unfolding restore
    restore-rejected_db actor =
        let row =
          get_row-snoc_self (λ s. s.id) db.snapshots
            (new_snapshot c.snapshot_id c.captured_at w (capture w c.now db)
              (some "approval_requested"))
            (get_row-unkeyed (λ s. s.id) c.snapshot_id db.snapshots r.fresh) in
        let k : w.id ≡ c.workflow_id = get_by_id-id db c.workflow_id w r.found in
        let found : get_by_id w.id (rejected_db str who reason w db) ≡ some (cancel_row w) =
          subst (λ i. get_by_id i (rejected_db str who reason w db) ≡ some (cancel_row w)) (sym k)
            get_by_id-rejected_db in
        rw row (rw found refl)

-- Rejecting the approval instead ends the workflow: whoever rejects it for whatever reason, the
-- workflow is cancelled and nothing else of its row changes, the snapshot of the pause can no longer
-- be restored, and the approval can no longer be resolved; both attempts raise and change no table.
pub restore-rollback_on_rejection :
    (str : ℕ → String) (c : Pause) (who : Option ℕ) (reason : String) (restorer : Option ℕ)
    (resolver : ℕ) (verdict : Bool) (notes : String) (later : ℕ) (db : Db) (w : Workflow)
    → IsReady c db w
    → let p = pause c db in
      let r = rollback_on_rejection str c.approval_id c.workflow_id who reason p.1 in
      (r.0
        ≡ returned (record {
          workflow_id = c.workflow_id;
          approval_id = c.approval_id;
          outcome = LifecycleOutcome.rejected;
          snapshot_id = none;
        }))
      × (get_by_id c.workflow_id r.1 ≡ some (record w { workflow_status = cancelled }))
      × (restore c.snapshot_id restorer r.1 ≡ (raised (restore_terminal cancelled), r.1))
      × (resolve c.approval_id resolver verdict notes later r.1
          ≡ (raised (not_resolvable c.approval_id ApprovalStatus.rejected), r.1))
restore-rollback_on_rejection str c who reason restorer resolver verdict notes later db w r =
    rw (pause_for_approval-paused c db w r) (
      rw (rollback_on_rejection-rejected c str who reason db w r) (
        refl,
        get_by_id-rejected_db c str who reason db w r,
        restore-rejected_db c str who reason db w r restorer,
        resolve-rejected_db c str who reason db w r resolver verdict notes later,
      ))
