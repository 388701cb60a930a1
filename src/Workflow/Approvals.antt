-- ===== src/Workflow/Approvals.antt =====
-- backend/workflows/approvals.py and escalation.py, with repositories/approval.py: the approval gate
-- of a workflow. `now` is the time that a method reads; a timestamp has its time zone. The proofs
-- are in the modules below this one.
pub mod Single
pub mod Resolved
pub mod Drift
use the_dashboard.Common.{
  ℕ, String, Bool, true, false, not, ◌||◌, ◌&&◌, Option, none, some, List, [], ◌∷◌, ◌++◌, ◌==◌, leb,
  pure, gets, modify, raise_if, or_raise, ◌>>=◌, ◌>>◌, any_of, select, get_row, put_row,
  if◌then◌else◌,
}
use the_dashboard.Workflow.Status.{WorkflowStatus, active, paused, failed, same_status, Refusal}
use the_dashboard.Workflow.Database.{
  ActorType, user, Workflow, Approval, ApprovalType, ApprovalStatus, RiskLevel, approval_requested,
  approval_resolved, workflow_escalated, Db, Session, transition_error, integrity_error,
  approval_not_found, already_pending, not_resolvable, approval_expired, no_longer_paused,
  workflow_expired, not_escalatable, get_by_id_or_raise, save, append_event,
}

-- `==` of the enumerations
abbrev pub same_type : ApprovalType → ApprovalType → Bool
same_type ApprovalType.offer ApprovalType.offer = true
same_type ApprovalType.price_reduction ApprovalType.price_reduction = true
same_type ApprovalType.skip_trace ApprovalType.skip_trace = true
same_type ApprovalType.outreach ApprovalType.outreach = true
same_type _ _ = false

abbrev pub is_pending : ApprovalStatus → Bool
is_pending ApprovalStatus.pending = true
is_pending _ = false

-- `_RESOLVABLE_STATUSES`
abbrev pub is_resolvable : ApprovalStatus → Bool
is_resolvable ApprovalStatus.pending = true
is_resolvable ApprovalStatus.escalated = true
is_resolvable _ = false

-- `ApprovalRepository.get_by_workflow`
unfoldable pub approvals_of : (workflow_id : ℕ) → Db → List Approval
approvals_of workflow_id db =
    select (λ a. a.workflow_id == workflow_id && not a.is_deleted) db.approvals

abbrev pub unless_deleted : Option Approval → Option Approval
unless_deleted none = none
unless_deleted (some a) = if a.is_deleted then none else some a

-- `ApprovalRepository.get_for_update_or_raise`
unfoldable pub get_approval_or_raise : (approval_id : ℕ) → Session Approval
get_approval_or_raise approval_id = do
  found ← gets (λ db. unless_deleted (get_row (λ a. a.id) approval_id db.approvals))
  or_raise found (approval_not_found approval_id)

-- An approval that keeps another one of the type from being requested.
abbrev pub blocks : ApprovalType → Approval → Bool
blocks approval_type a = same_type a.approval_type approval_type && is_resolvable a.approval_status

-- What the database refuses to insert: the identifier is a primary key, and a workflow has at most
-- one pending row of a type.
abbrev pub clashes : Approval → Db → Bool
clashes a db =
    any_of
      (λ b.
        b.id == a.id
        || (b.workflow_id == a.workflow_id
            && same_type b.approval_type a.approval_type
            && is_pending b.approval_status))
      db.approvals

abbrev pub new_approval :
    (approval_id workflow_id : ℕ)
    → ApprovalType
    → (requested_by : Option ℕ) → RiskLevel
    → (expires_at : Option ℕ) → Approval
new_approval approval_id workflow_id approval_type requested_by risk_level expires_at = record {
  id = approval_id;
  workflow_id = workflow_id;
  approval_type = approval_type;
  approval_status = ApprovalStatus.pending;
  requested_by = requested_by;
  resolved_by = none;
  expires_at = expires_at;
  risk_level = risk_level;
  resolution_notes = none;
  is_deleted = false;
}

unfoldable pub insert_approval : Approval → Session (Unit {0})
insert_approval a = do
  clash ← gets (clashes a)
  raise_if clash integrity_error
  modify (λ db. record db { approvals = db.approvals ++ a ∷ [] })

-- `WorkflowApprovalGate.request_approval`; `approval_id` is the identifier that it draws.
unfoldable pub request_approval :
    (approval_id workflow_id : ℕ)
    → ApprovalType
    → (requested_by : Option ℕ) → RiskLevel
    → (expires_at : Option ℕ) → Session Approval
request_approval approval_id workflow_id approval_type requested_by risk_level expires_at = do
  workflow ← get_by_id_or_raise workflow_id
  raise_if (not (same_status workflow.workflow_status active))
      (transition_error workflow_id workflow.workflow_status paused Refusal.not_allowed)
  blocked ← gets (λ db. any_of (blocks approval_type) (approvals_of workflow_id db))
  raise_if blocked (already_pending workflow_id approval_type)
  let approval : Approval =
      new_approval approval_id workflow_id approval_type requested_by risk_level expires_at
  insert_approval approval
  save (record workflow { workflow_status = paused })
  append_event workflow_id (approval_requested approval_id approval_type risk_level) user
      requested_by workflow.correlation_id
  pure approval

-- `expires_at is not None and expires_at <= now`
abbrev pub has_expired : Option ℕ → (now : ℕ) → Bool
has_expired none now = false
has_expired (some at) now = leb at now

-- The rows that `resolve` writes.
abbrev pub resolution :
    (resolved_by : ℕ) (is_approved : Bool) (notes : String) → Approval → Approval
resolution resolved_by is_approved notes a = record a {
  approval_status = if is_approved then ApprovalStatus.approved else ApprovalStatus.rejected;
  resolved_by = some resolved_by;
  resolution_notes = some notes;
}

abbrev pub after_resolution : (is_approved : Bool) → Workflow → Workflow
after_resolution is_approved w = record w {
  workflow_status = if is_approved then active else failed;
}

unfoldable pub save_approval : Approval → Session (Unit {0})
save_approval a = modify (λ db. record db { approvals = put_row (λ b. b.id) a db.approvals })

-- `WorkflowApprovalGate.resolve`
unfoldable pub resolve :
    (approval_id resolved_by : ℕ) (is_approved : Bool) (notes : String) (now : ℕ) → Session Approval
resolve approval_id resolved_by is_approved notes now = do
  approval ← get_approval_or_raise approval_id
  raise_if (not (is_resolvable approval.approval_status))
      (not_resolvable approval_id approval.approval_status)
  raise_if (has_expired approval.expires_at now) approval_expired
  workflow ← get_by_id_or_raise approval.workflow_id
  raise_if (not (same_status workflow.workflow_status paused)) no_longer_paused
  raise_if (has_expired workflow.expires_at now) workflow_expired
  let resolved : Approval = resolution resolved_by is_approved notes approval
  save_approval resolved
  save (after_resolution is_approved workflow)
  append_event workflow.id (approval_resolved approval_id approval.approval_type is_approved notes)
      user (some resolved_by) workflow.correlation_id
  pure resolved

-- `WorkflowApprovalGate.has_pending_approval`
unfoldable pub has_pending_approval : (workflow_id : ℕ) → Db → Bool
has_pending_approval workflow_id db =
    any_of (λ a. is_resolvable a.approval_status) (approvals_of workflow_id db)

-- `ESCALATABLE_STATUSES`
abbrev pub is_escalatable : WorkflowStatus → Bool
is_escalatable status = any_of (same_status status) (active ∷ paused ∷ [])

-- workflows/escalation.py
pub record EscalationRecord : Type 0 where
  pub workflow_id : ℕ
  pub escalated_from_status : WorkflowStatus
  pub reason : String
  pub escalated_to : Option ℕ

-- `WorkflowEscalation.escalate`
unfoldable pub escalate :
    (workflow_id : ℕ) (reason : String) (escalated_to : Option ℕ)
    → ActorType
    → (actor_id : Option ℕ) → Session EscalationRecord
escalate workflow_id reason escalated_to actor_type actor_id = do
  workflow ← get_by_id_or_raise workflow_id
  raise_if (not (is_escalatable workflow.workflow_status))
      (not_escalatable workflow_id workflow.workflow_status)
  append_event workflow.id (workflow_escalated reason escalated_to workflow.workflow_status)
      actor_type actor_id workflow.correlation_id
  pure (record {
    workflow_id = workflow_id;
    escalated_from_status = workflow.workflow_status;
    reason = reason;
    escalated_to = escalated_to;
  })
