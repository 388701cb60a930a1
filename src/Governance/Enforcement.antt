-- ===== src/Governance/Enforcement.antt =====
-- backend/governance/engine.py: the evaluation and the enforcement of the policies, with
-- the emitters of governance/events.py, governance/exceptions.py and the audit trail of
-- governance/audit.py. The proofs are in the module below this one.
pub mod Ruling
pub mod Stopped
use the_dashboard.Common.{
  ℕ, String, Bool, true, false, Option, none, some, List, [], ◌∷◌, ◌++◌, map, Outcome, returned,
  raised, Exec, pure, raise, gets, modify, ◌>>=◌, ◌>>◌, str_eq, if◌then◌else◌,
}
use the_dashboard.Governance.Events.{action_denied, invariant_violated, GovernanceEvent, Log, event}
use the_dashboard.Governance.Engine.{GovernanceError, global_scope, check_freeze}
use the_dashboard.Governance.Policy.{ActionClassification, RiskTier, Policies, get_active}
use the_dashboard.Governance.Evaluator.{
  rows, EvaluationError, row_attributes, PolicyEvaluationResult, evaluate,
}

-- The payload of `ACTION_POLICY_EVALUATED`; the other actions are written elsewhere.
pub record PolicyEvaluated : Type 0 where
  pub action : String
  pub classification : ActionClassification
  pub risk_tier : RiskTier
  pub requires_approval : Bool
  pub evaluation_id : ℕ
  pub matched_policy_key : Option String
  pub scope : String
  pub source_runtime : String

pub record AuditLog : Type 0 where
  pub id : ℕ
  pub actor_id : Option ℕ
  pub payload : PolicyEvaluated

pub record Governed : Type 0 where
  pub policies : Policies
  pub audit_logs : List AuditLog

-- `denied` is GovernanceDeniedError, and `frozen` carries GovernanceFrozenError; an error of the
-- evaluator passes through.
pub data EnforcementError : Type 0 where
  frozen : GovernanceError → EnforcementError
  denied : (action classification : String) (evaluation_id : ℕ) → EnforcementError
  not_evaluated : EvaluationError → EnforcementError

abbrev pub Session : Type 0 → Type 0
Session = Exec Governed EnforcementError

abbrev pub with_log : Log → Governed → Governed
with_log log s = record s { policies = record s.policies { log = log } }

abbrev pub failing_as : {E F A : Type 0} → (E → F) → Outcome E A → Outcome F A
failing_as f (returned a) = returned a
failing_as f (raised e) = raised (f e)

-- A method over the governance log.
abbrev pub on_log : {A : Type 0} → Exec Log GovernanceError A → Session A
on_log m s = (failing_as frozen (m s.policies.log).0, with_log (m s.policies.log).1 s)

-- `GovernanceEngine.evaluate_action`
unfoldable pub evaluate_action :
    (evaluation_id : ℕ) (action : String) → RiskTier → Session PolicyEvaluationResult
evaluate_action evaluation_id action tier s = (
  failing_as not_evaluated
      (evaluate rows action tier evaluation_id (map row_attributes (get_active s.policies))),
  s,
)

-- `GovernanceAuditRuntime.record` for an evaluation; the engine does not use the entry it returns.
unfoldable pub record_audit :
    (id : ℕ) → PolicyEvaluated → (actor_id : Option ℕ) → Session (Unit {0})
record_audit id payload actor_id =
    modify (λ s. record s { audit_logs = s.audit_logs ++ entry ∷ [] })
  where
    entry : AuditLog
    entry = record { id = id; actor_id = actor_id; payload = payload }

-- `classification.value`
abbrev pub value : ActionClassification → String
value ActionClassification.safe = "safe"
value ActionClassification.restricted = "restricted"
value ActionClassification.privileged = "privileged"
value ActionClassification.forbidden = "forbidden"
value ActionClassification.requires_approval = "requires_approval"

-- `emit_action_denied`
unfoldable pub emit_action_denied :
    (action classification : String) (evaluation_id : ℕ) (scope : String) (actor_id : Option ℕ)
    → Session (Unit {0})
emit_action_denied action classification evaluation_id scope actor_id =
    modify (λ s. with_log (s.policies.log ++ denial ∷ []) s)
  where
    denial : GovernanceEvent
    denial = event (action_denied action classification evaluation_id scope) none actor_id

-- `emit_invariant_violation`
unfoldable pub emit_invariant_violation :
    (invariant_id details : String) (actor_id : Option ℕ) → Session (Unit {0})
emit_invariant_violation invariant_id details actor_id =
    modify (λ s. with_log (s.policies.log ++ violation ∷ []) s)
  where
    violation : GovernanceEvent
    violation = event (invariant_violated invariant_id details) none actor_id

-- What follows where the gate stays shut.
unfoldable pub deny :
    (action : String)
    → PolicyEvaluationResult
    → (scope : String) (actor_id : Option ℕ) → Session (Unit {0})
unfolding emit_action_denied
deny action result scope actor_id = do
  emit_action_denied action (value result.classification) result.evaluation_id scope actor_id
  raise (denied action (value result.classification) result.evaluation_id)

abbrev pub is_forbidden : ActionClassification → Bool
is_forbidden ActionClassification.forbidden = true
is_forbidden _ = false

-- `scope or "global"`
abbrev pub scope_or_global : Option String → String
scope_or_global none = global_scope
scope_or_global (some scope) = if str_eq scope "" then global_scope else scope

-- `GovernanceEngine.enforce_action`; the first two arguments are the identifiers that it draws.
unfoldable pub enforce_action :
    (evaluation_id audit_id : ℕ) (action : String)
    → RiskTier
    → (scope : Option String) (actor_id : Option ℕ) (source_runtime : String)
    → Session PolicyEvaluationResult
unfolding evaluate_action record_audit deny
enforce_action evaluation_id audit_id action tier given actor_id source_runtime = do
  on_log (check_freeze scope actor_id source_runtime)
  result ← evaluate_action evaluation_id action tier
  record_audit audit_id (payload result) actor_id
  if is_forbidden result.classification then deny action result scope actor_id else pure tt
  pure result
  where
    scope : String
    scope = scope_or_global given

    payload : PolicyEvaluationResult → PolicyEvaluated
    payload result = record {
      action = action;
      classification = result.classification;
      risk_tier = tier;
      requires_approval = result.requires_approval;
      evaluation_id = result.evaluation_id;
      matched_policy_key = result.matched_policy_key;
      scope = scope;
      source_runtime = source_runtime;
    }
