-- ===== src/Workflow/Database/Tables.antt =====
-- The rows of the workflow tables (models/workflow.py, approval.py, workflow_event.py,
-- workflow_checkpoint.py, workflow_lease.py, workflow_snapshot.py) and the events that they keep
-- (events/contracts.py). A constructor of `Happening` is an event type with the payload written for
-- it.
use the_dashboard.Common.{
  ℕ, String, Bool, not, Option, none, some, List, [], ◌∷◌, str_eq, if◌then◌else◌,
}
use the_dashboard.Workflow.Status.{WorkflowStatus}

-- A value of a JSON payload that a caller hands over. Of one that is no text the code only asks
-- whether Python takes it for true.
pub data Value : Type 0 where
  text : String → Value
  other : (truthy : Bool) (code : ℕ) → Value

abbrev pub is_truthy : Value → Bool
is_truthy (text s) = not (str_eq s "")
is_truthy (other truthy code) = truthy

abbrev pub Dict : Type 0
Dict = List (String × Value)

-- `d.get(k)`
abbrev pub get : String → Dict → Option Value
get k [] = none
get k ((j, v) ∷ d) = if str_eq j k then some v else get k d

-- `d[k] = v`
abbrev pub set : String → Value → Dict → Dict
set k v [] = (k, v) ∷ []
set k v ((j, w) ∷ d) = if str_eq j k then (k, v) ∷ d else (j, w) ∷ set k v d

-- `{**d, **e}`
abbrev pub merge : Dict → Dict → Dict
merge d [] = d
merge d ((k, v) ∷ e) = merge (set k v d) e

pub data WorkflowType : Type 0 where
  outreach qualification follow_up closing : WorkflowType

pub data ActorType : Type 0 where
  user system ai : ActorType

pub record Workflow : Type 0 where
  pub id : ℕ
  pub workflow_type : WorkflowType
  pub workflow_status : WorkflowStatus
  pub current_step : Option String
  pub correlation_id : ℕ
  pub lead_id : Option ℕ
  pub initiated_by : Option ℕ
  pub expires_at : Option ℕ
  pub is_deleted : Bool  -- `deleted_at is not None`

pub data ApprovalType : Type 0 where
  offer price_reduction skip_trace outreach : ApprovalType

pub data ApprovalStatus : Type 0 where
  pending approved rejected expired escalated : ApprovalStatus

pub data RiskLevel : Type 0 where
  low medium high critical : RiskLevel

pub record Approval : Type 0 where
  pub id : ℕ
  pub workflow_id : ℕ
  pub approval_type : ApprovalType
  pub approval_status : ApprovalStatus
  pub requested_by : Option ℕ
  pub resolved_by : Option ℕ
  pub expires_at : Option ℕ
  pub risk_level : RiskLevel
  pub resolution_notes : Option String
  pub is_deleted : Bool

-- models/workflow_snapshot.py: the JSON blob `state`, with the approvals that the workflow waits for,
-- its latest checkpoint and its active lease.
pub record PendingApproval : Type 0 where
  pub approval_id : ℕ
  pub approval_type : ApprovalType
  pub approval_status : ApprovalStatus

pub record LatestCheckpoint : Type 0 where
  pub step : String
  pub status : WorkflowStatus
  pub payload : Dict

pub record ActiveLease : Type 0 where
  pub holder : String
  pub expires_at : ℕ

pub record SnapshotState : Type 0 where
  pub workflow_id : ℕ
  pub workflow_type : WorkflowType
  pub workflow_status : WorkflowStatus
  pub current_step : Option String
  pub correlation_id : ℕ
  pub lead_id : Option ℕ
  pub initiated_by : Option ℕ
  pub pending_approvals : List PendingApproval
  pub latest_checkpoint : Option LatestCheckpoint
  pub active_lease : Option ActiveLease

pub record WorkflowSnapshot : Type 0 where
  pub id : ℕ
  pub workflow_id : ℕ
  pub workflow_status : String
  pub current_step : Option String
  pub state : SnapshotState
  pub captured_at : ℕ
  pub trigger : Option String

-- workflows/compensation.py
pub record CompensatingAction : Type 0 where
  pub action_type : String
  pub target_id : ℕ
  pub triggered_by : String
  pub payload : Dict

pub data Happening : Type 0 where
  workflow_started : WorkflowType → (lead_id : Option ℕ) → Happening
  workflow_advanced workflow_completed : (payload : Dict) → Happening
  workflow_paused workflow_failed workflow_cancelled : (reason : String) → Happening
  workflow_resumed recovery_resumed : Happening
  checkpoint_restored :
      (restored_from_step : String) (status_at_checkpoint : WorkflowStatus) (payload : Dict)
      → Happening
  workflow_rolled_back : (reason : String) (from_step : Option String) → Happening
  compensating_action : CompensatingAction → Happening
  approval_requested : (approval_id : ℕ) → ApprovalType → RiskLevel → Happening
  approval_resolved :
      (approval_id : ℕ) → ApprovalType → (is_approved : Bool) (notes : String) → Happening
  workflow_escalated :
      (reason : String) (escalated_to : Option ℕ) (from_status : WorkflowStatus) → Happening
  snapshot_restored :
      (snapshot_id : ℕ) (restored_status : String) (restored_step : Option String) → Happening
  retry_scheduled : (attempt : ℕ) (next_retry_at : Option ℕ) (last_error : String) → Happening
  retry_attempted : (attempted_at : ℕ) → Happening
  retry_exhausted : (attempt : ℕ) (last_error : String) → Happening
  dead_letter : (reason : String) (retry_count : ℕ) (last_error : String) (at : ℕ) → Happening

pub record WorkflowEvent : Type 0 where
  pub workflow_id : ℕ
  pub body : Happening
  pub actor_type : ActorType
  pub actor_id : Option ℕ
  pub correlation_id : ℕ

pub record WorkflowCheckpoint : Type 0 where
  pub workflow_id : ℕ
  pub step : String
  pub status_at_checkpoint : WorkflowStatus
  pub payload : Dict

pub data LeaseStatus : Type 0 where
  active released expired : LeaseStatus

pub record WorkflowLease : Type 0 where
  pub workflow_id : ℕ
  pub lease_id : ℕ
  pub holder : String
  pub acquired_at : ℕ
  pub expires_at : ℕ
  pub renewed_at : Option ℕ
  pub released_at : Option ℕ
  pub status : LeaseStatus

-- The domain events of the channel `workflows`.
pub data Notice : Type 0 where
  lease_acquired : (workflow_id lease_id : ℕ) (holder : String) (expires_at : ℕ) → Notice
  lease_renewed : (workflow_id lease_id : ℕ) (holder : String) (new_expires_at : ℕ) → Notice
  lease_released : (workflow_id lease_id : ℕ) (holder : String) → Notice
  lease_expired : (workflow_id : ℕ) → Notice
  rollback_coordinated :
      (workflow_id : ℕ) (trigger reason : String) (from_step last_checkpoint_step : Option String)
      (compensating_action_count : ℕ)
      → Notice
  retry_announced : (workflow_id attempt : ℕ) (next_retry_at : Option ℕ) → Notice
  dead_letter_announced : (workflow_id : ℕ) (reason : String) (retry_count : ℕ) → Notice
  snapshot_taken :
      (workflow_id snapshot_id : ℕ) (workflow_status : String) (trigger : Option String) → Notice
  snapshot_restored_to : (workflow_id snapshot_id : ℕ) (restored_status : String) → Notice
  lifecycle_paused :
      (workflow_id approval_id : ℕ) → ApprovalType → (snapshot_id : Option ℕ) → Notice
  lifecycle_resumed : (workflow_id approval_id resolved_by : ℕ) → Notice
  lifecycle_rejected :
      (workflow_id approval_id : ℕ) (resolved_by : Option ℕ) (reason : String) → Notice

pub record DomainEvent : Type 0 where
  pub body : Notice
  pub correlation_id : Option ℕ
