-- ===== src/Workflow/Approvals/Drift.antt =====
-- A requested approval (backend/workflows/approvals.py) against the replay of the workflow's
-- events.
use the_dashboard.Common.{
  ℕ, String, true, false, Option, some, List, [], ◌∷◌, ◌++◌, ◌≡◌, refl, ap, ◌∙◌, arith, any_of,
  put_row, returned,
}
use the_dashboard.Workflow.Status.{active, paused, same_status}
use the_dashboard.Workflow.Database.{
  user, Workflow, WorkflowEvent, ApprovalType, RiskLevel, approval_requested, Db, empty_db,
  get_by_id, get_by_workflow, get_by_id_or_raise, save, append_event,
}
use the_dashboard.Workflow.Database.Rows.{get_by_id-row_of, get_by_id-put_row}
use the_dashboard.Workflow.Recovery.{Derived, derive_one, derive, initial, consistency_check}
use the_dashboard.Workflow.Recovery.Replay.{
  IsReplayable, persisted, as_value, get_by_workflow-own, derive-snoc,
}
use the_dashboard.Workflow.Calls.{Call, serve}
use the_dashboard.Workflow.Calls.Replayed.{
  AllTold, replay-derive, serve-IsReplayable, empty-IsReplayable,
}
use the_dashboard.Workflow.Approvals.{
  blocks, approvals_of, clashes, new_approval, insert_approval, request_approval,
}

module _ (id w_id : ℕ) (t : ApprovalType) (by : Option ℕ) (risk : RiskLevel)
    (until : Option ℕ) where
  abbrev requested_event : Workflow → WorkflowEvent
  requested_event w = record {
    workflow_id = w_id;
    body = approval_requested id t risk;
    actor_type = user;
    actor_id = by;
    correlation_id = w.correlation_id;
  }

  abbrev pause_row : Workflow → Workflow
  pause_row w = record w { workflow_status = paused }

  abbrev requested : Workflow → Db → Db
  requested w db = record db {
    approvals = db.approvals ++ new_approval id w_id t by risk until ∷ [];
    workflows = put_row (λ v. v.id) (pause_row w) db.workflows;
    events = db.events ++ requested_event w ∷ [];
  }

  request_approval-requested :
      (db : Db) (w : Workflow)
      → get_by_id w_id db ≡ some w
      → same_status w.workflow_status active ≡ true
      → any_of (blocks t) (approvals_of w_id db) ≡ false
      → clashes (new_approval id w_id t by risk until) db ≡ false
      → request_approval id w_id t by risk until db
        ≡ (returned (new_approval id w_id t by risk until), requested w db)
  unfolding request_approval get_by_id_or_raise insert_approval save append_event
  request_approval-requested db w found on free fine = rw found (rw on (rw free (rw fine refl)))

  -- The replay passes the request over.
  requested_silent : (d : Derived) (w : Workflow) → derive_one d (requested_event w) ≡ d
  unfolding derive_one
  requested_silent d w = refl

  drift :
      (db : Db) (w : Workflow)
      → get_by_id w_id db ≡ some w
      → same_status w.workflow_status active ≡ true
      → IsReplayable db
      → (consistency_check w_id (requested w db)).0
        ≡ returned (record {
          persisted_status = paused;
          derived_status = w.workflow_status;
          persisted_step = w.current_step;
          derived_step = as_value w.current_step;
          is_consistent = false;
        })
  unfolding consistency_check
  drift db w found on r =
      let db' = requested w db in
      let found' : get_by_id w_id db' ≡ some (pause_row w) =
        get_by_id-put_row db w_id w found db' (pause_row w) refl refl refl in
      let told : derive initial (get_by_workflow w_id db') ≡ persisted w =
        rw (get_by_workflow-own db db' (requested_event w) refl w_id refl) (
          derive-snoc initial (get_by_workflow w_id db) (requested_event w)
          ∙ ap (λ d. derive_one d (requested_event w))
              (r.known w_id w (get_by_id-row_of w_id db w found))
          ∙ requested_silent (persisted w) w) in
      let differs : same_status paused w.workflow_status ≡ false = ground arith in
      rw found' (rw (replay-derive db' w_id (pause_row w) found') (rw told (rw differs refl)))

-- Requesting an approval pauses an active workflow with an event that the replay passes over: after
-- any calls on empty tables that keep the replay in step (no rollback, and advances with a step that
-- is not empty and that their payload does not overwrite), a request that is not blocked and does
-- not clash makes the consistency check report a drift, with the status before the request derived.
pub consistency_check-requested :
    (str : ℕ → String) (cs : List Call) (id w_id : ℕ) (t : ApprovalType) (by : Option ℕ)
    (risk : RiskLevel) (until : Option ℕ) (w : Workflow)
    → AllTold cs
    → let db = serve str cs empty_db in
      get_by_id w_id db ≡ some w
      → same_status w.workflow_status active ≡ true
      → any_of (blocks t) (approvals_of w_id db) ≡ false
      → clashes (new_approval id w_id t by risk until) db ≡ false
      → (consistency_check w_id (request_approval id w_id t by risk until db).1).0
        ≡ returned (record {
          persisted_status = paused;
          derived_status = w.workflow_status;
          persisted_step = w.current_step;
          derived_step = as_value w.current_step;
          is_consistent = false;
        })
consistency_check-requested str cs id w_id t by risk until w told found on free fine =
    let db = serve str cs empty_db in
    let r = serve-IsReplayable str cs empty_db told empty-IsReplayable in
    ap (λ x. (consistency_check w_id x.1).0)
      (request_approval-requested id w_id t by risk until db w found on free fine)
    ∙ drift id w_id t by risk until db w found on r
