-- ===== src/Governance/Evaluator.antt =====
-- backend/governance/evaluator.py, with the input and output of governance/contracts.py: the policy
-- evaluator. It reads the same attributes of a GovernancePolicySnapshot and of a row of the table,
-- which `row_attributes` lists; only a snapshot is a dataclass, and only the steps of a row are
-- dictionaries, with the fields that the column documents. The proofs are in the modules below this one.
mod Inheritance
pub mod Highest
pub mod Latest
pub mod Patterns
pub mod Verdict
use the_dashboard.Common.{
  ℕ, String, Bool, true, false, ◌||◌, Option, none, some, List, [], ◌∷◌, Outcome, returned, raised,
  ltb, str_eq, any_of, select, map, find_by, codes, starts_with, contains, if◌then◌else◌,
}
use the_dashboard.Governance.Policy.{
  is_active, ActionClassification, safe, restricted, privileged, forbidden, requires_approval,
  RiskTier, ApprovalRoutingStrategy, EscalationStep, GovernancePolicy, GovernancePolicySnapshot,
  to_snapshot,
}
unfoldable pub use Inheritance.*
use the_dashboard.Governance.Glob.{fnmatch}
use the_dashboard.Workflow.Database.{Value, Dict, get, merge, ApprovalType}

pub record PolicyEvaluationResult : Type 0 where
  pub action : String
  pub classification : ActionClassification
  pub risk_tier : RiskTier
  pub requires_approval : Bool
  pub approval_type : Option ApprovalType
  pub routing_strategy : ApprovalRoutingStrategy
  pub approver_ids : List ℕ
  pub escalation_chain : List EscalationStep
  pub quorum_required : ℕ
  pub timeout_seconds : ℕ
  pub matched_policy_key : Option String
  pub matched_policy_version : ℕ
  pub evaluation_id : ℕ

-- `_CLASSIFICATION_RANK`
abbrev pub classification_rank : ActionClassification → Option ℕ
classification_rank safe = some 0
classification_rank restricted = some 1
classification_rank privileged = some 2
classification_rank forbidden = some 3
classification_rank requires_approval = none

-- `_DEFAULT_RESULT_TEMPLATE`
abbrev pub default_result : String → RiskTier → (evaluation_id : ℕ) → PolicyEvaluationResult
default_result action tier evaluation_id = record {
  action = action;
  classification = safe;
  risk_tier = tier;
  requires_approval = false;
  approval_type = none;
  routing_strategy = ApprovalRoutingStrategy.direct;
  approver_ids = [];
  escalation_chain = [];
  quorum_required = 0;
  timeout_seconds = 86400;
  matched_policy_key = none;
  matched_policy_version = 0;
  evaluation_id = evaluation_id;
}

-- `_matches`
abbrev pub matches_any : (action : String) (patterns : List String) → Bool
matches_any action = any_of (fnmatch action)

-- `_requires_approval`
abbrev pub needs_approval : ActionClassification → Bool
needs_approval restricted = true
needs_approval privileged = true
needs_approval _ = false

-- `ApprovalType(text)`
abbrev approval_type_of : String → Option ApprovalType
approval_type_of s =
    if str_eq s "offer"
    then some ApprovalType.offer
    else if str_eq s "price_reduction"
    then some ApprovalType.price_reduction
    else if str_eq s "skip_trace"
    then some ApprovalType.skip_trace
    else if str_eq s "outreach"
    then some ApprovalType.outreach
    else none

abbrev pub from_rules : Option Value → Option ApprovalType
from_rules (some (Value.text s)) = approval_type_of s
from_rules _ = none

abbrev pub from_action : (action : List ℕ) → ApprovalType
from_action action =
    if starts_with (codes "workflow.offer") action
    then ApprovalType.offer
    else if starts_with (codes "workflow.price") action
    then ApprovalType.price_reduction
    else if starts_with (codes "workflow.skip_trace") action || contains (codes "skip_trace") action
    then ApprovalType.skip_trace
    else ApprovalType.outreach

abbrev pub or_from_action : String → Option ApprovalType → ApprovalType
or_from_action action none = from_action (codes action)
or_from_action action (some t) = t

-- `_infer_approval_type`
unfoldable pub infer_approval_type : (action : String) → Dict → ApprovalType
infer_approval_type action rules = or_from_action action (from_rules (get "approval_type" rules))

abbrev pub rank : ActionClassification → Attempt ℕ
rank c = elim (classification_rank c) [ none ↦ raised missing_rank | some k ↦ returned k ]

-- `max(…, key=…)`: the first of the highest, once every key has been read
module _ {A : Type 0} (key : A → Attempt ℕ) where
  abbrev pub max_from : A → (best : ℕ) → List A → Attempt A
  max_from a best [] = returned a
  max_from a best (b ∷ bs) = do
    k ← key b
    max_from (if ltb best k then b else a) (if ltb best k then k else best) bs

  abbrev pub max_by : A → List A → Attempt A
  max_by a bs = do k ← key a; max_from a k bs

abbrev pub active_only : List GovernancePolicySnapshot → List GovernancePolicySnapshot
active_only = select (λ p. is_active p.status)

abbrev pub matching : String → List GovernancePolicySnapshot → List GovernancePolicySnapshot
matching action = select (λ p. matches_any action p.action_patterns)

-- The steps of the chain, each read by `step["escalate_to"]`.
abbrev pub read_steps : Kind → List EscalationStep → Attempt (List EscalationStep)
read_steps rows steps = returned steps
read_steps snapshots [] = returned []
read_steps snapshots (step ∷ steps) = raised not_subscriptable

unfoldable pub result_from :
    String
    → (evaluation_id : ℕ) → List EscalationStep
    → GovernancePolicySnapshot
    → PolicyEvaluationResult
unfolding infer_approval_type
result_from action evaluation_id chain winner = record {
  action = action;
  classification = winner.classification;
  risk_tier = winner.risk_tier;
  requires_approval = needs_approval winner.classification;
  approval_type =
      if needs_approval winner.classification
      then some (infer_approval_type action winner.rules)
      else none;
  routing_strategy = winner.routing_strategy;
  approver_ids = winner.approver_ids;
  escalation_chain = chain;
  quorum_required = winner.quorum_required;
  timeout_seconds = winner.timeout_seconds;
  matched_policy_key = some winner.policy_key;
  matched_policy_version = winner.version;
  evaluation_id = evaluation_id;
}

abbrev pub judge :
    Kind
    → String
    → RiskTier
    → (evaluation_id : ℕ) → List GovernancePolicySnapshot
    → Attempt PolicyEvaluationResult
judge kind action tier evaluation_id [] = returned (default_result action tier evaluation_id)
judge kind action tier evaluation_id (p ∷ ps) = do
  winner ← max_by (λ q. rank q.classification) p ps
  chain ← read_steps kind winner.escalation_chain
  returned (result_from action evaluation_id chain winner)

-- `PolicyEvaluator.evaluate`
unfoldable pub evaluate :
    Kind
    → String
    → RiskTier
    → (evaluation_id : ℕ) → List GovernancePolicySnapshot
    → Attempt PolicyEvaluationResult
unfolding resolve_inheritance
evaluate kind action tier evaluation_id policies = do
  resolved ← resolve_inheritance kind (active_only policies)
  judge kind action tier evaluation_id (matching action resolved)

abbrev pub classify : List GovernancePolicySnapshot → Attempt ActionClassification
classify [] = returned safe
classify (p ∷ ps) = max_by rank p.classification (map (λ q. q.classification) ps)

-- `PolicyEvaluator.classify_action`
unfoldable pub classify_action :
    Kind → String → List GovernancePolicySnapshot → Attempt ActionClassification
unfolding resolve_inheritance
classify_action kind action policies = do
  resolved ← resolve_inheritance kind (active_only policies)
  classify (matching action resolved)
