-- ===== src/Workflow/Graph.antt =====
-- backend/workflows/graph.py: the canonical steps of a workflow type. The proofs are in the module
-- below this one.
pub mod Forward
use the_dashboard.Common.{
  ℕ, zero, suc, String, Bool, true, false, not, ◌||◌, Option, none, some, List, [], ◌∷◌, leb,
  str_eq, str_elem, if◌then◌else◌,
}
use the_dashboard.Workflow.Database.{WorkflowType, outreach, qualification, follow_up, closing}

-- `STEP_GRAPH`
unfoldable pub step_graph : WorkflowType → List String
step_graph WorkflowType.outreach = "contacted" ∷ "qualified" ∷ "offered" ∷ "closed" ∷ []
step_graph qualification = "initial_review" ∷ "scored" ∷ "qualified" ∷ "rejected" ∷ []
step_graph follow_up = "scheduled" ∷ "contacted" ∷ "resolved" ∷ []
step_graph closing = "negotiating" ∷ "under_contract" ∷ "closed" ∷ []

-- `steps.index(step)`, for a step of the list
abbrev pub index : String → List String → ℕ
index step [] = 0
index step (s ∷ steps) = if str_eq step s then 0 else suc (index step steps)

-- `xs[n:]`
abbrev pub drop {ℓ} : {A : Type ℓ} → ℕ → List A → List A
drop zero xs = xs
drop (suc n) [] = []
drop (suc n) (x ∷ xs) = drop n xs

-- Whether `validate_step_advance` raises.
unfoldable pub is_backward :
    WorkflowType → (current_step : Option String) (next_step : String) → Bool
is_backward workflow_type none next_step = false
is_backward workflow_type (some current) next_step =
    if not (str_elem current (step_graph workflow_type))
      || not (str_elem next_step (step_graph workflow_type))
    then false
    else leb (index next_step (step_graph workflow_type)) (index current (step_graph workflow_type))

unfoldable pub get_valid_next_steps : WorkflowType → (current_step : Option String) → List String
get_valid_next_steps workflow_type none = step_graph workflow_type
get_valid_next_steps workflow_type (some current) =
    if str_elem current (step_graph workflow_type)
    then drop (suc (index current (step_graph workflow_type))) (step_graph workflow_type)
    else []

unfoldable pub is_valid_step : WorkflowType → (step : String) → Bool
is_valid_step workflow_type step = str_elem step (step_graph workflow_type)
