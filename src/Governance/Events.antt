-- ===== src/Governance/Events.antt =====
-- The governance event log: models/enums.py (GovernanceEventType), models/governance_event.py and
-- repositories/governance_event.py. A constructor of `EventBody` is an event type with the fields
-- of the payload that the code writes for it; the log lists the events oldest first.
use the_dashboard.Common.{
  ℕ, String, Bool, Option, none, some, List, [], ◌∷◌, ◌++◌, ◌==◌, Exec, modify, select,
}

pub data EventBody : Type 0 where
  freeze_activated :
      (freeze_key scope reason : String) (is_kill_switch : Bool) (activated_at : ℕ) → EventBody
  freeze_deactivated : (freeze_key : String) → EventBody
  kill_switch_triggered : (freeze_key scope reason : String) (activated_at : ℕ) → EventBody
  freeze_propagated : (scope source_runtime : String) → EventBody
  quorum_vote_cast : (voter_id : ℕ) (vote : Bool) (notes : Option String) (voted_at : ℕ) → EventBody
  quorum_met : (votes_for votes_against required : ℕ) → EventBody
  delegation_granted :
      (delegation_key : String) (delegator_id delegate_id : ℕ)
      (approval_types risk_tiers : List String) (expires_at : Option ℕ)
      → EventBody
  delegation_revoked :
      (delegation_key : String) (delegator_id delegate_id : ℕ) (revoke_reason : Option String)
      → EventBody
  policy_snapshot_captured :
      (policy_id : ℕ) (policy_key : String) (version : ℕ) (action : String) → EventBody
  policy_superseded : (policy_id : ℕ) (policy_key : String) (superseded_version : ℕ) → EventBody
  -- `policy_superseded` with the payload of `archive`
  policy_archived : (policy_id : ℕ) (policy_key : String) → EventBody
  action_denied : (action classification : String) (evaluation_id : ℕ) (scope : String) → EventBody
  invariant_violated : (invariant_id details : String) → EventBody

pub record GovernanceEvent : Type 0 where
  pub approval_id : Option ℕ
  pub actor_id : Option ℕ
  pub body : EventBody

abbrev pub Log : Type 0
Log = List GovernanceEvent

abbrev pub event : EventBody → Option ℕ → Option ℕ → GovernanceEvent
event body approval_id actor_id = record {
  approval_id = approval_id;
  actor_id = actor_id;
  body = body;
}

-- `GovernanceEventRepository.append`
abbrev pub append : {E : Type 0} → EventBody → Option ℕ → Option ℕ → Exec Log E (Unit {0})
append body approval_id actor_id = modify (λ log. log ++ event body approval_id actor_id ∷ [])

abbrev is_for : ℕ → Option ℕ → Bool
is_for approval_id none = Bool.false
is_for approval_id (some a) = a == approval_id

-- `GovernanceEventRepository.get_for_approval`
abbrev pub get_for_approval : ℕ → Log → Log
get_for_approval approval_id = select (λ e. is_for approval_id e.approval_id)
