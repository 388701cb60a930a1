-- ===== src/Governance/Policy/Tables.antt =====
-- The rows and records of backend/governance/policy.py: models/governance_policy.py and
-- governance/contracts.py.
use the_dashboard.Common.{ℕ, String, Bool, true, false, Option, List}
use the_dashboard.Governance.Events.{Log}
use the_dashboard.Workflow.Database.{Dict}

pub data GovernancePolicyStatus : Type 0 where
  active inactive superseded archived : GovernancePolicyStatus

abbrev pub is_active : GovernancePolicyStatus → Bool
is_active active = true
is_active _ = false

pub data ActionClassification : Type 0 where
  safe restricted privileged forbidden requires_approval : ActionClassification

pub data RiskTier : Type 0 where
  standard elevated high critical : RiskTier

pub data ApprovalRoutingStrategy : Type 0 where
  direct escalation_chain quorum any_of : ApprovalRoutingStrategy

-- governance/contracts.py
pub record EscalationStep : Type 0 where
  pub escalate_to : ℕ
  pub after_seconds : ℕ
  pub reason : Option String

-- The columns that the caller of `create` and `supersede` fills.
pub record PolicyFields : Type 0 where
  pub action_patterns : List String
  pub classification : ActionClassification
  pub risk_tier : RiskTier
  pub routing_strategy : ApprovalRoutingStrategy
  pub approver_ids : List ℕ
  pub escalation_chain : List EscalationStep
  pub quorum_required : ℕ
  pub timeout_seconds : ℕ
  pub escalation_timeout_seconds : ℕ
  pub inherited_from : Option String
  pub rules : Dict
  pub description : Option String

pub record GovernancePolicy : Type 0 where
  pub id : ℕ
  pub policy_key : String
  pub version : ℕ
  pub status : GovernancePolicyStatus
  pub fields : PolicyFields
  pub created_by : Option ℕ

pub record Policies : Type 0 where
  pub rows : List GovernancePolicy
  pub log : Log

pub data PolicyError : Type 0 where
  already_active : (policy_key : String) (version : ℕ) → PolicyError
  no_active : (policy_key : String) → PolicyError
  multiple_results integrity_error : PolicyError  -- of the database
