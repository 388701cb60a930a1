-- ===== src/Workflow/Rollback/Coordination.antt =====
-- The branches of the coordinator in backend/workflows/coordinator.py.
use the_dashboard.Common.{
  ℕ, String, Bool, true, false, Option, none, some, List, [], ◌∷◌, ◌++◌, ◌≡◌, ◌∙◌, map,
  append_assoc, append-nil, returned, raised, length, put_row,
}
use the_dashboard.Workflow.Status.{is_terminal}
use the_dashboard.Workflow.Database.{
  ActorType, system, Workflow, WorkflowEvent, CompensatingAction, compensating_action,
  rollback_coordinated, Db, not_found, get_by_id,
}
use the_dashboard.Workflow.Recovery.{get_latest}
use the_dashboard.Workflow.Rollback.{RollbackResult, step_of, record_actions, coordinate}
use the_dashboard.Workflow.Rollback.Drift.{cancel_row, rolled_back_event, rollback-rolled_back}

abbrev pub action_event : ℕ → Option ℕ → ℕ → CompensatingAction → WorkflowEvent
action_event workflow_id actor correlation_id action = record {
  workflow_id = workflow_id;
  body = compensating_action action;
  actor_type = system;
  actor_id = actor;
  correlation_id = correlation_id;
}

record_actions-events :
    (id : ℕ) (actor : Option ℕ) (corr : ℕ) (actions : List CompensatingAction) (db : Db)
    → record_actions id actor corr actions db
      ≡ (returned tt, record db { events = db.events ++ map (action_event id actor corr) actions })
unfolding record_actions
record_actions-events id actor corr [] db = rw (append-nil db.events)
record_actions-events id actor corr (a ∷ actions) db =
    record_actions-events id actor corr actions _
    ∙ rw (
        append_assoc db.events (action_event id actor corr a ∷ [])
          (map (action_event id actor corr) actions))

-- The tables after a coordinated rollback of a workflow that is not terminal.
abbrev pub coordinated :
    ℕ
    → Workflow
    → (reason trigger : String) → ActorType
    → Option ℕ
    → List CompensatingAction
    → Db
    → Db
coordinated id w reason trigger actor_type actor actions db = record db {
  workflows = put_row (λ v. v.id) (cancel_row w) db.workflows;
  events =
      (db.events ++ rolled_back_event w reason actor_type actor ∷ [])
      ++ map (action_event id actor w.correlation_id) actions;
  domain_events =
      db.domain_events
      ++ record {
        body =
            rollback_coordinated id trigger reason w.current_step (step_of (get_latest id db))
              (length actions);
        correlation_id = some w.correlation_id;
      }
        ∷ [];
}

module _ (id : ℕ) (reason trigger : String) (actor_type : ActorType) (actor : Option ℕ)
    (actions : List CompensatingAction) where
  abbrev pub report : Workflow → Bool → RollbackResult
  report w idempotent = record {
    workflow_id = id;
    trigger = trigger;
    reason = reason;
    rolled_back_from_step = w.current_step;
    compensating_actions = actions;
    was_idempotent = idempotent;
  }

  pub coordinate-missing :
      (db : Db)
      → get_by_id id db ≡ none
      → coordinate id reason trigger actor_type actor actions db ≡ (raised (not_found id), db)
  unfolding coordinate
  coordinate-missing db h = rw h

  -- A workflow that is terminal already is left alone, and so is every table.
  pub coordinate-terminal :
      (db : Db) (w : Workflow)
      → get_by_id id db ≡ some w
      → is_terminal w.workflow_status ≡ true
      → coordinate id reason trigger actor_type actor actions db ≡ (returned (report w true), db)
  unfolding coordinate
  coordinate-terminal db w h t = rw h (rw t)

  pub coordinate-live :
      (db : Db) (w : Workflow)
      → get_by_id id db ≡ some w
      → is_terminal w.workflow_status ≡ false
      → coordinate id reason trigger actor_type actor actions db
        ≡ (returned (report w false), coordinated id w reason trigger actor_type actor actions db)
  unfolding coordinate
  coordinate-live db w h t = rw h (
      rw t (
        rw (rollback-rolled_back db id w h reason actor_type actor t)
          (rw (record_actions-events id actor w.correlation_id actions _))))
