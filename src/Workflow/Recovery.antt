-- ===== src/Workflow/Recovery.antt =====
-- backend/workflows/recovery.py and checkpoint.py: restoring a workflow, and replaying its events.
-- The proofs are in the modules below this one.
pub mod Replay
pub mod Preserves
use the_dashboard.Common.{
  ℕ, String, Bool, true, false, not, ◌||◌, ◌&&◌, Option, none, some, List, [], ◌∷◌, ◌++◌, ◌+◌, ◌==◌,
  pure, raise, gets, modify, raise_if, or_raise, ◌>>=◌, ◌>>◌, str_eq, any_of, length, find_by,
  find_last, if◌then◌else◌,
}
use the_dashboard.Workflow.Status.{
  WorkflowStatus, pending, active, paused, completed, failed, cancelled, same_status,
}
use the_dashboard.Workflow.Database.{
  Value, text, other, is_truthy, Dict, get, system, Workflow, Happening, workflow_started,
  workflow_advanced, workflow_completed, workflow_paused, workflow_failed, workflow_cancelled,
  workflow_resumed, recovery_resumed, checkpoint_restored, WorkflowEvent, WorkflowCheckpoint, Db,
  not_failed, no_checkpoint, transition_error, Session, get_by_id, get_by_id_or_raise, save,
  append_event, get_by_workflow,
}
use the_dashboard.Workflow.Status.{Refusal}
use the_dashboard.Workflow.Runtime.{emit_for}

-- `CheckpointRuntime._get_by_step`
unfoldable pub get_by_step : (workflow_id : ℕ) (step : String) → Db → Option WorkflowCheckpoint
get_by_step workflow_id step db =
    find_by (λ c. c.workflow_id == workflow_id && str_eq c.step step) db.checkpoints

-- `CheckpointRuntime.get_latest`
unfoldable pub get_latest : (workflow_id : ℕ) → Db → Option WorkflowCheckpoint
get_latest workflow_id db = find_last (λ c. c.workflow_id == workflow_id) db.checkpoints

-- `CheckpointRuntime.set`
unfoldable pub set_checkpoint :
    (workflow_id : ℕ) (step : String) → WorkflowStatus → Dict → Session WorkflowCheckpoint
unfolding get_by_step
set_checkpoint workflow_id step status payload = do
  existing ← gets (get_by_step workflow_id step)
  elim existing [
    | some old ↦ pure old
    | none ↦
        (modify (λ db. record db { checkpoints = db.checkpoints ++ checkpoint ∷ [] })
          >> pure checkpoint)
  ]
  where
    checkpoint : WorkflowCheckpoint
    checkpoint = record {
      workflow_id = workflow_id;
      step = step;
      status_at_checkpoint = status;
      payload = payload;
    }

-- `WorkflowRecovery.resume_failed`
unfoldable pub resume_failed : (workflow_id : ℕ) (actor_id : Option ℕ) → Session Workflow
unfolding get_by_id_or_raise save append_event
resume_failed workflow_id actor_id = do
  workflow ← get_by_id_or_raise workflow_id
  raise_if (not (same_status workflow.workflow_status failed))
      (not_failed workflow_id workflow.workflow_status)
  let moved : Workflow = record workflow { workflow_status = active }
  save moved
  emit_for moved recovery_resumed system actor_id
  pure moved

-- The statuses from which `resume_from_checkpoint` does not resume.
abbrev pub is_beyond_recovery : WorkflowStatus → Bool
is_beyond_recovery status = any_of (same_status status) (completed ∷ cancelled ∷ [])

-- `WorkflowRecovery.resume_from_checkpoint`; the checkpoint is returned for its step and payload.
unfoldable pub resume_from_checkpoint :
    (workflow_id : ℕ) (actor_id : Option ℕ) → Session (WorkflowCheckpoint × Workflow)
unfolding get_latest get_by_id_or_raise save append_event
resume_from_checkpoint workflow_id actor_id = do
  latest ← gets (get_latest workflow_id)
  checkpoint ← or_raise latest (no_checkpoint workflow_id)
  workflow ← get_by_id_or_raise workflow_id
  raise_if (is_beyond_recovery workflow.workflow_status)
      (transition_error workflow_id workflow.workflow_status active Refusal.terminal)
  let moved : Workflow = record workflow {
    workflow_status = active;
    current_step = some checkpoint.step;
  }
  save moved
  emit_for moved
      (checkpoint_restored checkpoint.step checkpoint.status_at_checkpoint checkpoint.payload)
      system actor_id
  pure (checkpoint, moved)

-- `_STATUS_EVENTS`
unfoldable pub status_events : Happening → Option WorkflowStatus
status_events (workflow_started _ _) = some active
status_events (workflow_paused _) = some paused
status_events workflow_resumed = some active
status_events (workflow_completed _) = some completed
status_events (workflow_failed _) = some failed
status_events (workflow_cancelled _) = some cancelled
status_events recovery_resumed = some active
status_events (checkpoint_restored _ _ _) = some active
status_events _ = none

-- Python's `x or y` on the results of `get`
abbrev pub or_else : Option Value → Option Value → Option Value
or_else none y = y
or_else (some v) y = if is_truthy v then some v else y

-- The variables of the loop of `replay`.
pub record Derived : Type 0 where
  pub status : WorkflowStatus
  pub step : Option Value

abbrev pub new_status : Option WorkflowStatus → WorkflowStatus → WorkflowStatus
new_status none old = old
new_status (some s) old = s

unfoldable pub new_step : Happening → Option Value → Option Value
new_step (workflow_advanced payload) old =
    or_else (get "step" payload) (get "restored_from_step" payload)
new_step (checkpoint_restored step _ _) old = or_else none (some (text step))
new_step _ old = old

unfoldable pub derive_one : Derived → WorkflowEvent → Derived
unfolding status_events new_step
derive_one d e = record {
  status = new_status (status_events e.body) d.status;
  step = new_step e.body d.step;
}

unfoldable pub derive : Derived → List WorkflowEvent → Derived
unfolding derive_one
derive d [] = d
derive d (e ∷ es) = derive (derive_one d e) es

abbrev pub initial : Derived
initial = record { status = pending; step = none }

pub record ReplayResult : Type 0 where
  pub replayed_events : ℕ
  pub final : Derived

-- `WorkflowRecovery.replay`
unfoldable pub replay : (workflow_id : ℕ) → Session ReplayResult
unfolding get_by_id_or_raise get_by_workflow derive
replay workflow_id = do
  workflow ← get_by_id_or_raise workflow_id  -- 404 guard
  events ← gets (get_by_workflow workflow_id)
  pure (record { replayed_events = length events; final = derive initial events })

-- `workflow.current_step == replay.final_step`
abbrev pub same_step : Option String → Option Value → Bool
same_step none none = true
same_step (some s) (some (text t)) = str_eq s t
same_step _ _ = false

pub record ConsistencyResult : Type 0 where
  pub persisted_status : WorkflowStatus
  pub derived_status : WorkflowStatus
  pub persisted_step : Option String
  pub derived_step : Option Value
  pub is_consistent : Bool

-- `WorkflowRecovery.consistency_check`
unfoldable pub consistency_check : (workflow_id : ℕ) → Session ConsistencyResult
unfolding get_by_id_or_raise
consistency_check workflow_id = do
  workflow ← get_by_id_or_raise workflow_id
  found ← replay workflow_id
  pure (record {
    persisted_status = workflow.workflow_status;
    derived_status = found.final.status;
    persisted_step = workflow.current_step;
    derived_step = found.final.step;
    is_consistent =
        same_status workflow.workflow_status found.final.status
        && same_step workflow.current_step found.final.step;
  })
