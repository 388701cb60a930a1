-- ===== src/Workflow/Status.antt =====
-- backend/workflows/states.py and transitions.py: the status machine of a workflow.
use the_dashboard.Common.{
  Bool, true, false, List, [], ◌∷◌, Option, none, some, any_of, if◌then◌else◌,
}

pub data WorkflowStatus : Type 0 where
  pending active paused completed failed cancelled : WorkflowStatus

pub WorkflowStatus-discrete : Discrete WorkflowStatus
WorkflowStatus-discrete = hlevel

-- `==` of the enumeration
abbrev pub same_status : WorkflowStatus → WorkflowStatus → Bool
same_status pending pending = true
same_status active active = true
same_status paused paused = true
same_status completed completed = true
same_status failed failed = true
same_status cancelled cancelled = true
same_status _ _ = false

-- `TERMINAL_STATES`
abbrev pub terminal_states : List WorkflowStatus
terminal_states = completed ∷ failed ∷ cancelled ∷ []

-- `VALID_TRANSITIONS`
unfoldable pub valid_transitions : WorkflowStatus → List WorkflowStatus
valid_transitions pending = active ∷ cancelled ∷ []
valid_transitions active = paused ∷ completed ∷ failed ∷ cancelled ∷ []
valid_transitions paused = active ∷ cancelled ∷ []
valid_transitions completed = []
valid_transitions failed = []
valid_transitions cancelled = []

unfoldable pub is_terminal : WorkflowStatus → Bool
is_terminal status = any_of (same_status status) terminal_states

unfoldable pub is_valid_transition : WorkflowStatus → WorkflowStatus → Bool
unfolding valid_transitions
is_valid_transition from to = any_of (same_status to) (valid_transitions from)

pub data Refusal : Type 0 where
  terminal not_allowed : Refusal

-- `validate_transition`: why a transition is refused, or `none` when it is allowed.
unfoldable pub validate_transition : WorkflowStatus → WorkflowStatus → Option Refusal
unfolding is_terminal is_valid_transition
validate_transition from to =
    if is_terminal from
    then some terminal
    else if is_valid_transition from to
    then none
    else some not_allowed
