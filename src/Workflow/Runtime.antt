-- ===== src/Workflow/Runtime.antt =====
-- backend/workflows/runtime.py: the lifecycle operations of a workflow.

use Prim.Native.String.{◌++◌ as str_append}
use the_dashboard.Common.{
  ℕ, String, false, not, ◌||◌, Option, none, some, [], ◌∷◌, ◌++◌, ◌==◌, pure, raise, gets, modify,
  raise_if, ◌>>=◌, ◌>>◌, any_of,
}
use the_dashboard.Governance.Engine.{check_freeze, global_scope}
use the_dashboard.Workflow.Status.{
  WorkflowStatus, active, paused, completed, failed, cancelled, same_status, Refusal,
  validate_transition,
}
use the_dashboard.Workflow.Database.{
  Dict, text, merge, WorkflowType, ActorType, Workflow, Happening, workflow_started,
  workflow_advanced, workflow_completed, workflow_paused, workflow_failed, workflow_cancelled,
  workflow_resumed, transition_error, not_active, integrity_error, Session, get_by_id_or_raise,
  save, append_event, governed,
}

-- The `create` of a workflow: `id` is the primary key and `correlation_id` is unique.
unfoldable pub create : Workflow → Session (Unit {0})
create w = do
  clash ←
      gets (λ db. any_of (λ v. v.id == w.id || v.correlation_id == w.correlation_id) db.workflows)
  raise_if clash integrity_error
  modify (λ db. record db { workflows = db.workflows ++ w ∷ [] })

-- `WorkflowRuntime._emit`
abbrev pub emit_for : Workflow → Happening → ActorType → Option ℕ → Session (Unit {0})
emit_for w body actor_type actor_id = append_event w.id body actor_type actor_id w.correlation_id

-- `WorkflowRuntime.start`; `id` and `corr_id` are the identifiers that it draws or is given.
unfoldable pub start :
    (id corr_id : ℕ)
    → WorkflowType
    → (lead_id initiated_by : Option ℕ) → ActorType
    → Session Workflow
unfolding create append_event
start id corr_id workflow_type lead_id initiated_by actor_type = do
  governed (check_freeze global_scope none "workflow")
  create workflow
  emit_for workflow (workflow_started workflow_type lead_id) actor_type initiated_by
  pure workflow
  where
    workflow : Workflow
    workflow = record {
      id = id;
      workflow_type = workflow_type;
      workflow_status = active;
      current_step = none;
      correlation_id = corr_id;
      lead_id = lead_id;
      initiated_by = initiated_by;
      expires_at = none;
      is_deleted = false;
    }

-- f"workflow:{workflow_id}", where `str` gives the text of an identifier.
abbrev pub workflow_scope : (str : ℕ → String) → ℕ → String
workflow_scope str id = str_append "workflow:" (str id)

-- `WorkflowRuntime._assert_active`
abbrev pub assert_active : Workflow → Session (Unit {0})
assert_active w =
    raise_if (not (same_status w.workflow_status active)) (not_active w.id w.workflow_status)

-- `WorkflowRuntime.advance`
unfoldable pub advance :
    (str : ℕ → String) (workflow_id : ℕ) (step : String) (payload : Dict)
    → ActorType
    → (actor_id : Option ℕ) → Session Workflow
unfolding get_by_id_or_raise save append_event
advance str workflow_id step payload actor_type actor_id = do
  governed (check_freeze (workflow_scope str workflow_id) none "workflow")
  workflow ← get_by_id_or_raise workflow_id
  assert_active workflow
  let moved : Workflow = record workflow { current_step = some step }
  save moved
  emit_for moved (workflow_advanced (merge (("step", text step) ∷ []) payload)) actor_type actor_id
  pure moved

abbrev pub raise_refusal :
    (workflow_id : ℕ) (from to : WorkflowStatus) → Option Refusal → Session (Unit {0})
raise_refusal workflow_id from to none = pure tt
raise_refusal workflow_id from to (some why) = raise (transition_error workflow_id from to why)

-- `WorkflowRuntime._transition`
unfoldable pub transition :
    (workflow_id : ℕ) (target : WorkflowStatus)
    → Happening
    → ActorType
    → (actor_id : Option ℕ) → Session Workflow
unfolding get_by_id_or_raise save append_event
transition workflow_id target body actor_type actor_id = do
  workflow ← get_by_id_or_raise workflow_id
  raise_refusal workflow_id workflow.workflow_status target
      (validate_transition workflow.workflow_status target)
  let moved : Workflow = record workflow { workflow_status = target }
  save moved
  emit_for moved body actor_type actor_id
  pure moved

unfoldable pub pause : (workflow_id : ℕ) (reason : String) → ActorType → Option ℕ → Session Workflow
unfolding transition
pause workflow_id reason = transition workflow_id paused (workflow_paused reason)

unfoldable pub resume : (workflow_id : ℕ) → ActorType → Option ℕ → Session Workflow
unfolding transition
resume workflow_id = transition workflow_id active workflow_resumed

unfoldable pub complete :
    (workflow_id : ℕ) (payload : Dict) → ActorType → Option ℕ → Session Workflow
unfolding transition
complete workflow_id payload = transition workflow_id completed (workflow_completed payload)

unfoldable pub fail : (workflow_id : ℕ) (reason : String) → ActorType → Option ℕ → Session Workflow
unfolding transition
fail workflow_id reason = transition workflow_id failed (workflow_failed reason)

unfoldable pub cancel :
    (workflow_id : ℕ) (reason : String) → ActorType → Option ℕ → Session Workflow
unfolding transition
cancel workflow_id reason = transition workflow_id cancelled (workflow_cancelled reason)
