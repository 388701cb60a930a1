-- ===== src/Workflow/Orchestrator/Rounds.antt =====
-- A pause that ends in `resume_on_approval` (backend/workflows/approval_orchestrator.py).
use the_dashboard.Common.{ℕ, String, true, false, none, some, ◌≡◌, refl, ap, ◌∙◌, arith, returned}
use the_dashboard.Workflow.Status.{active, paused}
use the_dashboard.Workflow.Database.{Workflow, Db, get_by_id, get_by_id_or_raise, emit}
use the_dashboard.Workflow.Database.Rows.{get_by_id-put_row}
use the_dashboard.Workflow.Approvals.{has_expired, after_resolution, get_approval_or_raise}
use the_dashboard.Workflow.Approvals.Resolved.{resolve-resolved, resolved_db}
use the_dashboard.Workflow.Orchestrator.{LifecycleOutcome, resume_on_approval}
use the_dashboard.Workflow.Orchestrator.Pauses.{
  Pause, pause, asked, report, pause_row, IsReady, paused_db, get_by_id-paused_db,
  pause_for_approval-paused, ready_to_resolve,
}

module _ (c : Pause) where
  resume_on_approval-resumed :
      (actor : ℕ) (notes : String) (later : ℕ) (db : Db) (w : Workflow)
      → IsReady c db w
      → has_expired c.expires_at later ≡ false
      → has_expired w.expires_at later ≡ false
      → let r = resume_on_approval c.approval_id actor notes later (paused_db c w db) in
        (r.0 ≡ returned (report c LifecycleOutcome.resumed none))
        × (get_by_id c.workflow_id r.1 ≡ some (record w { workflow_status = active }))
  unfolding resume_on_approval get_approval_or_raise get_by_id_or_raise emit
  resume_on_approval-resumed actor notes later db w r fresh in_time =
      let a = asked c in
      let ready = ready_to_resolve c later db w r fresh in_time in
      let db2 =
        resolved_db c.approval_id actor true notes later (paused_db c w db) a (pause_row c w) in
      let found =
        get_by_id-put_row (paused_db c w db) c.workflow_id (pause_row c w) ready.here db2
          (after_resolution true (pause_row c w)) refl refl refl in
      rw ready.found (
        rw
          (resolve-resolved c.approval_id actor true notes later (paused_db c w db) a
            (pause_row c w) ready)
          (rw found (refl, found)))

-- Pausing an active workflow for an approval and approving it, before the approval or the workflow
-- expires, gives the workflow back as it was: the pause returns the new snapshot and leaves the
-- workflow paused, and `resume_on_approval` leaves the row that was there before the pause.
pub resume_on_approval-pause_for_approval :
    (c : Pause) (actor : ℕ) (notes : String) (later : ℕ) (db : Db) (w : Workflow)
    → IsReady c db w
    → has_expired c.expires_at later ≡ false
    → has_expired w.expires_at later ≡ false
    → let p = pause c db in
      let r = resume_on_approval c.approval_id actor notes later p.1 in
      (p.0
        ≡ returned (record {
          workflow_id = c.workflow_id;
          approval_id = c.approval_id;
          outcome = LifecycleOutcome.paused;
          snapshot_id = some c.snapshot_id;
        }))
      × (get_by_id c.workflow_id p.1 ≡ some (record w { workflow_status = paused }))
      × (r.0
          ≡ returned (record {
            workflow_id = c.workflow_id;
            approval_id = c.approval_id;
            outcome = LifecycleOutcome.resumed;
            snapshot_id = none;
          }))
      × (get_by_id c.workflow_id r.1 ≡ some w)
resume_on_approval-pause_for_approval c actor notes later db w r fresh in_time =
    let (result, row) = resume_on_approval-resumed c actor notes later db w r fresh in_time in
    let on : w.workflow_status ≡ active = let h = r.on in ground arith in
    let same : record w { workflow_status = active } ≡ w = rw on refl in
    rw (pause_for_approval-paused c db w r)
      (refl, get_by_id-paused_db c db w r.found, result, row ∙ ap some same)
