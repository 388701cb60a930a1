-- ===== src/Ai/Gate.antt =====
-- backend/ai/gate.py: the approval of a tool call. `approval_id` is the identifier that a new
-- approval draws.
use the_dashboard.Common.{
  ℕ, String, Bool, true, false, not, ◌||◌, ◌&&◌, Option, none, some, [], ◌∷◌, ◌++◌, ◌==◌, pure,
  raise, gets, modify, raise_if, or_raise, ◌>>=◌, ◌>>◌, any_of, get_row, put_row, if◌then◌else◌,
}
use the_dashboard.Workflow.Database.{Approval, ApprovalType, ApprovalStatus, RiskLevel}
use the_dashboard.Workflow.Approvals.{
  same_type, is_pending, is_resolvable, unless_deleted, new_approval,
}
use the_dashboard.Ai.Registry.{AiToolDefinition, Registry}
use the_dashboard.Ai.Execution.{
  Store, Session, no_workflow, approval_not_found, not_resolvable, integrity_error,
  mark_awaiting_approval, resume_from_approval, cancel,
}

-- What the database refuses to insert: the identifier is a primary key, and a workflow has at most
-- one pending row of a type. The foreign keys to the workflows and the users, which have no table in
-- this part, are not checked.
abbrev pub clashes : Approval → Store → Bool
clashes a s =
    any_of
      (λ b.
        b.id == a.id
        || (b.workflow_id == a.workflow_id
            && same_type b.approval_type a.approval_type
            && is_pending b.approval_status))
      s.approvals

-- `tool.approval_type or ApprovalType.outreach`
abbrev pub type_or_outreach : Option ApprovalType → ApprovalType
type_or_outreach none = ApprovalType.outreach
type_or_outreach (some t) = t

-- The approval is inserted and the execution waits for it.
unfoldable pub ask : Approval → (execution_id : ℕ) → Session Bool
ask approval execution_id = do
  clash ← gets (clashes approval)
  raise_if clash integrity_error
  modify (λ s. record s { approvals = s.approvals ++ approval ∷ [] })
  waiting ← mark_awaiting_approval execution_id approval.id
  pure false

abbrev pub ask_for :
    AiToolDefinition
    → (approval_id execution_id : ℕ) (workflow_id actor_id : Option ℕ) → RiskLevel
    → Session Bool
ask_for tool approval_id execution_id none actor_id risk = raise (no_workflow tool.tool_id)
ask_for tool approval_id execution_id (some workflow_id) actor_id risk =
    ask
      (new_approval approval_id workflow_id (type_or_outreach tool.approval_type) actor_id risk
        none)
      execution_id

abbrev pub check :
    Option AiToolDefinition
    → (approval_id execution_id : ℕ) (workflow_id actor_id : Option ℕ) → RiskLevel
    → Session Bool
check none approval_id execution_id workflow_id actor_id risk = pure true
check (some tool) approval_id execution_id workflow_id actor_id risk =
    if tool.requires_approval
    then ask_for tool approval_id execution_id workflow_id actor_id risk
    else pure true

-- `AIApprovalGate.check_tool`; a tool is registered under its own identifier.
unfoldable pub check_tool :
    Registry
    → (approval_id execution_id : ℕ) (tool_id : String) (workflow_id actor_id : Option ℕ)
    → RiskLevel
    → Session Bool
check_tool tools approval_id execution_id tool_id = check (tools tool_id) approval_id execution_id

-- `ApprovalRepository.get_for_update_or_raise`
unfoldable pub get_approval_or_raise : (approval_id : ℕ) → Session Approval
get_approval_or_raise approval_id = do
  found ← gets (λ s. unless_deleted (get_row (λ a. a.id) approval_id s.approvals))
  or_raise found (approval_not_found approval_id)

-- What the decision does to the execution.
abbrev pub settle : (is_approved : Bool) (execution_id now : ℕ) → Session (Unit {0})
settle is_approved execution_id now =
    if is_approved
    then (do row ← resume_from_approval execution_id; pure tt)
    else (do row ← cancel execution_id "approval_rejected" now; pure tt)

-- `AIApprovalGate.resolve`
unfoldable pub resolve :
    (execution_id approval_id : ℕ) (is_approved : Bool) (resolved_by : Option ℕ) (notes : String)
    (now : ℕ)
    → Session (Unit {0})
resolve execution_id approval_id is_approved resolved_by notes now = do
  approval ← get_approval_or_raise approval_id
  raise_if (not (is_resolvable approval.approval_status)) (not_resolvable approval_id)
  modify (λ s. record s {
    approvals =
        put_row (λ a. a.id)
          (record approval {
            approval_status =
                if is_approved then ApprovalStatus.approved else ApprovalStatus.rejected;
            resolved_by = resolved_by;
            resolution_notes = some notes;
          })
          s.approvals;
  })
  settle is_approved execution_id now
