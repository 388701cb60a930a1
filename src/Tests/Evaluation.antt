-- ===== src/Tests/Evaluation.antt =====
-- Runs of the patterns, the evaluator and the enforcement of the policies on concrete inputs.
use the_dashboard.Common.{
  ℕ, String, none, some, List, [], ◌∷◌, ◌++◌, ◌≡◌, ◌↔◌, ◌⊎◌, inl, refl, true, false, map, codes,
  Outcome, returned, raised,
}
use the_dashboard.Governance.Glob.{fnmatch, matches, compile, accepts}
use the_dashboard.Governance.Freeze.{is_frozen, kill_switch}
use the_dashboard.Governance.Engine.{GovernanceError, check_freeze}
use the_dashboard.Governance.Events.{freeze_propagated, event}
use the_dashboard.Governance.Freeze.Runs
use the_dashboard.Governance.Freeze.Runs.{Request}
use the_dashboard.Governance.Policy.{
  GovernancePolicyStatus, ActionClassification, RiskTier, ApprovalRoutingStrategy, PolicyFields,
  GovernancePolicy, GovernancePolicySnapshot, to_snapshot, get_active,
}
use the_dashboard.Governance.Evaluator.{
  rows, snapshots, not_a_dataclass, PolicyEvaluationResult, by_key, resolve_inheritance,
  matches_any, result_from, evaluate, classify_action,
}
use the_dashboard.Governance.Evaluator.Patterns.{Begins, matches_any-plain}
use the_dashboard.Governance.Evaluator.Verdict.{Verdict, evaluate-Verdict}
use the_dashboard.Governance.Enforcement.{
  Governed, with_log, EnforcementError, denied, evaluate_action, record_audit, deny,
  emit_action_denied, enforce_action,
}
use the_dashboard.Governance.Enforcement.Stopped.{Stops, enforce_action-kill_switch}
use the_dashboard.Governance.Enforcement.Ruling.{Ruling, enforce_action-Ruling}

globs_agree :
    map (fnmatch "ai.tool.x") ("ai.*" ∷ "*" ∷ "ai.tool.?" ∷ "*.[w-z]" ∷ "*.[!x]" ∷ "[x" ∷ "ai" ∷ [])
    ≡ true ∷ true ∷ true ∷ true ∷ false ∷ false ∷ false ∷ []
unfolding fnmatch matches compile accepts
globs_agree = refl

classes_agree :
    map (fnmatch "a") ("[]a]" ∷ "[!]b]" ∷ "[c-a!a]" ∷ "[c-aa]" ∷ "[!c-a]" ∷ "[b-]" ∷ "[-a]" ∷ [])
    ≡ true ∷ true ∷ false ∷ true ∷ true ∷ false ∷ true ∷ []
unfolding fnmatch matches compile accepts
classes_agree = refl

matches_any-plain_example : (matches_any "workflow.pause" ("workflow.*" ∷ "ai.*" ∷ []) ≡ true) ↔ (
    Begins (codes "workflow.pause") (codes "workflow.") true
    ⊎ (matches_any "workflow.pause" ("ai.*" ∷ []) ≡ true))
matches_any-plain_example =
    matches_any-plain "workflow.pause" "workflow.*" (codes "workflow.") true ("ai.*" ∷ []) refl refl

abbrev fields : PolicyFields
fields = record {
  action_patterns = "workflow.*" ∷ [];
  classification = ActionClassification.restricted;
  risk_tier = RiskTier.high;
  routing_strategy = ApprovalRoutingStrategy.direct;
  approver_ids = 7 ∷ [];
  escalation_chain = [];
  quorum_required = 0;
  timeout_seconds = 86400;
  escalation_timeout_seconds = 3600;
  inherited_from = none;
  rules = [];
  description = none;
}

abbrev policy : ℕ → String → (version : ℕ) → PolicyFields → GovernancePolicy
policy id key version given = record {
  id = id;
  policy_key = key;
  version = version;
  status = GovernancePolicyStatus.active;
  fields = given;
  created_by = none;
}

-- Workflow actions need an approval, and offers are forbidden.
abbrev governed : Governed
governed = record {
  policies = record {
    rows =
        policy 1 "workflows" 1 fields
        ∷ policy 2 "offers" 3 (record fields {
          action_patterns = "workflow.offer*" ∷ [];
          classification = ActionClassification.forbidden;
        })
        ∷ [];
    log = [];
  };
  audit_logs = [];
}

abbrev inheriting : List GovernancePolicySnapshot
inheriting =
    to_snapshot 8 50 (policy 1 "workflows" 1 fields)
    ∷ to_snapshot 9 50 (
        policy 4 "calls" 1 (record fields {
          action_patterns = [];
          classification = ActionClassification.privileged;
          inherited_from = some "workflows";
        }))
    ∷ to_snapshot 10 50 (policy 3 "workflows" 2 (record fields { action_patterns = "ai.*" ∷ [] }))
    ∷ []

classes_of_actions :
    map (λ a. classify_action snapshots a inheriting) ("ai.call" ∷ "workflow.pause" ∷ [])
    ≡ returned ActionClassification.privileged ∷ returned ActionClassification.safe ∷ []
unfolding classify_action resolve_inheritance by_key fnmatch matches compile accepts
classes_of_actions = refl

inherited_rows : classify_action rows "ai.call" inheriting ≡ raised not_a_dataclass
unfolding classify_action resolve_inheritance by_key
inherited_rows = refl

abbrev enforced : String → Outcome EnforcementError PolicyEvaluationResult × Governed
enforced action = enforce_action 40 41 action RiskTier.high none (some 9) "api" governed

offers_are_denied :
    (enforced "workflow.offer.create").0 ≡ raised (denied "workflow.offer.create" "forbidden" 40)
unfolding enforce_action check_freeze evaluate_action record_audit deny emit_action_denied evaluate
    resolve_inheritance by_key fnmatch matches compile accepts result_from is_frozen get_active
offers_are_denied = refl

enforce_action-Ruling_example :
    Ruling 40 41 "workflow.offer.create" RiskTier.high "global"
      (some 9)
      "api"
      governed
      (enforced "workflow.offer.create")
enforce_action-Ruling_example =
    enforce_action-Ruling 40 41 "workflow.offer.create" RiskTier.high none (some 9) "api" governed

evaluate-Verdict_example :
    Verdict snapshots "ai.call" RiskTier.high 40 inheriting
      (evaluate snapshots "ai.call" RiskTier.high 40 inheriting)
evaluate-Verdict_example = evaluate-Verdict snapshots "ai.call" RiskTier.high 40 inheriting

enforce_action-kill_switch_example :
    let log =
      Runs.serve
        (Request.deactivate "k" none ∷ [])
        (kill_switch "k" "global" "breach" none 5 []).1 in
    (b : String) × Stops b "api"
    × (enforce_action 40 41 "ai.call" RiskTier.high (some "api") none "api" (with_log log governed)
        ≡ (
          raised (EnforcementError.frozen (GovernanceError.frozen b)),
          with_log (log ++ event (freeze_propagated b "api") none none ∷ []) governed,
        ))
enforce_action-kill_switch_example =
    enforce_action-kill_switch "k" "global" "breach" none 5 [] (Request.deactivate "k" none ∷ []) 40
      41 "ai.call" RiskTier.high (some "api") none "api" governed (inl refl)
