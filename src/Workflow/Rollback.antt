-- ===== src/Workflow/Rollback.antt =====
-- backend/workflows/rollback.py and coordinator.py: cancelling a workflow with a record of its
-- compensating actions, which are never executed. The proofs are in the modules below this one.
pub mod Drift
pub mod Coordination
use the_dashboard.Common.{
  ℕ, String, Bool, true, false, Option, none, some, List, [], ◌∷◌, ◌++◌, Outcome, returned, raised,
  pure, raise, gets, raise_if, ◌>>=◌, ◌>>◌, length, if◌then◌else◌,
}
use the_dashboard.Workflow.Status.{WorkflowStatus, cancelled, is_terminal}
use the_dashboard.Workflow.Database.{
  Value, text, other, Dict, ActorType, system, Workflow, WorkflowCheckpoint, CompensatingAction,
  workflow_rolled_back, compensating_action, rollback_coordinated, Db, rollback_error,
  WorkflowError, Session, get_by_id_or_raise, save, append_event, emit,
}
use the_dashboard.Workflow.Runtime.{emit_for}
use the_dashboard.Workflow.Recovery.{get_latest}

-- `WorkflowRollback.rollback`
unfoldable pub rollback :
    (workflow_id : ℕ) (reason : String) → ActorType → (actor_id : Option ℕ) → Session Workflow
unfolding is_terminal get_by_id_or_raise save append_event
rollback workflow_id reason actor_type actor_id = do
  workflow ← get_by_id_or_raise workflow_id
  raise_if (is_terminal workflow.workflow_status)
      (rollback_error workflow_id workflow.workflow_status)
  let moved : Workflow = record workflow { workflow_status = cancelled }
  save moved
  emit_for moved (workflow_rolled_back reason workflow.current_step) actor_type actor_id
  pure moved

-- workflows/compensation.py
pub record RollbackResult : Type 0 where
  pub workflow_id : ℕ
  pub trigger : String
  pub reason : String
  pub rolled_back_from_step : Option String
  pub compensating_actions : List CompensatingAction
  pub was_idempotent : Bool

abbrev pub step_of : Option WorkflowCheckpoint → Option String
step_of none = none
step_of (some c) = some c.step

-- The loop that records each compensating action.
unfoldable pub record_actions :
    (workflow_id : ℕ) (actor_id : Option ℕ) (correlation_id : ℕ)
    → List CompensatingAction
    → Session (Unit {0})
unfolding append_event
record_actions workflow_id actor_id correlation_id [] = pure tt
record_actions workflow_id actor_id correlation_id (action ∷ actions) = do
  append_event workflow_id (compensating_action action) system actor_id correlation_id
  record_actions workflow_id actor_id correlation_id actions

-- `try: … except RollbackError: return …`, and the code after it
abbrev pub handle_rollback_error :
    Outcome WorkflowError Workflow
    → Session RollbackResult
    → Session RollbackResult
    → Session RollbackResult
handle_rollback_error (returned w) handler rest = rest
handle_rollback_error (raised (rollback_error id status)) handler rest = handler
handle_rollback_error (raised e) handler rest = raise e

-- `RollbackCoordinator.coordinate`
unfoldable pub coordinate :
    (workflow_id : ℕ) (reason trigger : String)
    → ActorType
    → (actor_id : Option ℕ) → List CompensatingAction
    → Session RollbackResult
unfolding get_by_id_or_raise emit
coordinate workflow_id reason trigger actor_type actor_id actions = do
  workflow ← get_by_id_or_raise workflow_id
  if is_terminal workflow.workflow_status then pure (result workflow true) else do
    checkpoint ← gets (get_latest workflow_id)
    λ db.
        handle_rollback_error (rollback workflow_id reason actor_type actor_id db).0
          (pure (result workflow true))
          (do
            emit
                (rollback_coordinated workflow_id trigger reason workflow.current_step
                  (step_of checkpoint) (length actions))
                (some workflow.correlation_id)
            record_actions workflow_id actor_id workflow.correlation_id actions
            pure (result workflow false))
          (rollback workflow_id reason actor_type actor_id db).1
  where
    result : Workflow → Bool → RollbackResult
    result workflow idempotent = record {
      workflow_id = workflow_id;
      trigger = trigger;
      reason = reason;
      rolled_back_from_step = workflow.current_step;
      compensating_actions = actions;
      was_idempotent = idempotent;
    }

abbrev cancel_approval : (approval_id : ℕ) (trigger : String) (payload : Dict) → CompensatingAction
cancel_approval approval_id trigger payload = record {
  action_type = "cancel_approval";
  target_id = approval_id;
  triggered_by = trigger;
  payload = payload;
}

-- The hooks of the coordinator. `str` gives the text of an identifier.
module _ (str : ℕ → String) where
  abbrev shown : Option ℕ → Value
  shown none = other false 0  -- None
  shown (some id) = text (str id)

  unfoldable pub rollback_on_approval_expiry :
      (approval_id workflow_id : ℕ) (reason : String) → Session RollbackResult
  unfolding coordinate
  rollback_on_approval_expiry approval_id workflow_id reason =
      coordinate workflow_id reason "approval_expired" system none (
        cancel_approval approval_id "approval_expired"
          (("approval_id", text (str approval_id)) ∷ ("reason", text reason) ∷ [])
        ∷ [])

  -- The actions that `rollback_on_approval_rejection` records.
  abbrev pub rejected_actions :
      (approval_id : ℕ) (rejected_by : Option ℕ) (reason : String) → List CompensatingAction
  rejected_actions approval_id rejected_by reason =
      cancel_approval approval_id "approval_rejected" (
        ("approval_id", text (str approval_id))
        ∷ ("rejected_by", shown rejected_by)
        ∷ ("reason", text reason)
        ∷ [])
      ∷ []

  unfoldable pub rollback_on_approval_rejection :
      (approval_id workflow_id : ℕ) (rejected_by : Option ℕ) (reason : String)
      → Session RollbackResult
  unfolding coordinate
  rollback_on_approval_rejection approval_id workflow_id rejected_by reason =
      coordinate workflow_id reason "approval_rejected" system rejected_by
        (rejected_actions approval_id rejected_by reason)

unfoldable pub rollback_on_escalation_failure :
    (workflow_id : ℕ) (reason : String) → Session RollbackResult
unfolding coordinate
rollback_on_escalation_failure workflow_id reason =
    coordinate workflow_id reason "escalation_unresolved" system none []
