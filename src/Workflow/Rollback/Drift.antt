-- ===== src/Workflow/Rollback/Drift.antt =====
-- A rollback (backend/workflows/rollback.py) against the replay of the workflow's events.
use the_dashboard.Common.{
  ℕ, String, List, false, Option, some, [], ◌∷◌, ◌++◌, ◌≡◌, refl, ◌∙◌, ap, arith, returned, put_row,
}
use the_dashboard.Workflow.Status.{WorkflowStatus, cancelled, same_status, is_terminal}
use the_dashboard.Workflow.Database.{
  ActorType, empty_db, Workflow, WorkflowEvent, workflow_rolled_back, Db, get_by_id,
  get_by_workflow,
}
use the_dashboard.Workflow.Database.Rows.{get_by_id-row_of, get_by_id-id, get_by_id-put_row}
use the_dashboard.Workflow.Recovery.{Derived, derive_one, derive, initial, consistency_check}
use the_dashboard.Workflow.Recovery.Replay.{
  IsReplayable, persisted, as_value, get_by_workflow-own, derive-snoc,
}
use the_dashboard.Workflow.Calls.{Call, serve}
use the_dashboard.Workflow.Calls.Replayed.{
  AllTold, replay-derive, serve-IsReplayable, empty-IsReplayable,
}
use the_dashboard.Workflow.Rollback.{rollback}

abbrev pub cancel_row : Workflow → Workflow
cancel_row w = record w { workflow_status = cancelled }

abbrev pub rolled_back_event : Workflow → String → ActorType → Option ℕ → WorkflowEvent
rolled_back_event w reason actor_type actor = record {
  workflow_id = w.id;
  body = workflow_rolled_back reason w.current_step;
  actor_type = actor_type;
  actor_id = actor;
  correlation_id = w.correlation_id;
}

-- The tables after the rollback of a workflow that is not terminal.
abbrev pub rolled_back : Workflow → String → ActorType → Option ℕ → Db → Db
rolled_back w reason actor_type actor db = record db {
  workflows = put_row (λ v. v.id) (cancel_row w) db.workflows;
  events = db.events ++ rolled_back_event w reason actor_type actor ∷ [];
}

-- The replay passes the event of a rollback over.
rolled_back_silent :
    (d : Derived) (w : Workflow) (reason : String) (actor_type : ActorType) (actor : Option ℕ)
    → derive_one d (rolled_back_event w reason actor_type actor) ≡ d
unfolding derive_one
rolled_back_silent d w reason actor_type actor = refl

live_differs : (s : WorkflowStatus) → is_terminal s ≡ false → same_status cancelled s ≡ false
unfolding is_terminal
live_differs s h = ground arith

module _ (db : Db) (id : ℕ) (w : Workflow) (found : get_by_id id db ≡ some w) where
  pub rollback-rolled_back :
      (reason : String) (actor_type : ActorType) (actor : Option ℕ)
      → is_terminal w.workflow_status ≡ false
      → rollback id reason actor_type actor db
        ≡ (returned (cancel_row w), rolled_back w reason actor_type actor db)
  unfolding rollback
  rollback-rolled_back reason actor_type actor live = rw found (rw live)

  -- The drift after a rollback of a workflow whose events told its row so far.
  pub consistency_check-rollback :
      (reason : String) (actor_type : ActorType) (actor : Option ℕ)
      → IsReplayable db
      → is_terminal w.workflow_status ≡ false
      → (consistency_check id (rollback id reason actor_type actor db).1).0
        ≡ returned (record {
          persisted_status = cancelled;
          derived_status = w.workflow_status;
          persisted_step = w.current_step;
          derived_step = as_value w.current_step;
          is_consistent = false;
        })
  unfolding consistency_check
  consistency_check-rollback reason actor_type actor r live =
      let db' = rolled_back w reason actor_type actor db in
      let found' : get_by_id id db' ≡ some (cancel_row w) =
        get_by_id-put_row db id w found db' (cancel_row w) refl refl refl in
      let told : derive initial (get_by_workflow id db') ≡ persisted w =
        rw
          (get_by_workflow-own db db' (rolled_back_event w reason actor_type actor) refl id
            (get_by_id-id db id w found))
          (derive-snoc initial (get_by_workflow id db) _
            ∙ ap (λ d. derive_one d (rolled_back_event w reason actor_type actor))
                (r.known id w (get_by_id-row_of id db w found))
            ∙ rolled_back_silent (persisted w) w reason actor_type actor) in
      rw (rollback-rolled_back reason actor_type actor live) (
        rw found' (
          rw (replay-derive db' id (cancel_row w) found')
            (rw told (rw (live_differs w.workflow_status live)))))

-- Rolling back a workflow that is not terminal, after any calls on empty tables that keep the
-- replay in step (no rollback, and advances with a step that is not empty and that their payload
-- does not overwrite), makes the consistency check report a drift: the row is cancelled, and the
-- replay still gives the status before the rollback.
pub consistency_check-rolled_back :
    (str : ℕ → String) (cs : List Call) (id : ℕ) (w : Workflow) (reason : String)
    (actor_type : ActorType) (actor : Option ℕ)
    → AllTold cs
    → get_by_id id (serve str cs empty_db) ≡ some w
    → is_terminal w.workflow_status ≡ false
    → (consistency_check id (rollback id reason actor_type actor (serve str cs empty_db)).1).0
      ≡ returned (record {
        persisted_status = cancelled;
        derived_status = w.workflow_status;
        persisted_step = w.current_step;
        derived_step = as_value w.current_step;
        is_consistent = false;
      })
consistency_check-rolled_back str cs id w reason actor_type actor told found live =
    consistency_check-rollback (serve str cs empty_db) id w found reason actor_type actor
      (serve-IsReplayable str cs empty_db told empty-IsReplayable) live
