-- ===== src/Tests/Policies.antt =====
-- Runs of the policy versions (backend/governance/policy.py) on concrete tables.
use the_dashboard.Common.{none, some, List, [], ◌∷◌, ◌≡◌, ◌⊎◌, refl, map, returned}
use the_dashboard.Governance.Policy.{
  ActionClassification, RiskTier, ApprovalRoutingStrategy, PolicyFields, GovernancePolicy, Policies,
  of_key, get_active_version, get_latest_version_number, add_version, create, supersede, archive,
}
use the_dashboard.Governance.Policy.Versions.{AreNumbered}
use the_dashboard.Governance.Policy.Life.{PolicyCall, perform, serve, serve-versions}

abbrev fields : PolicyFields
fields = record {
  action_patterns = "workflow.*" ∷ [];
  classification = ActionClassification.restricted;
  risk_tier = RiskTier.high;
  routing_strategy = ApprovalRoutingStrategy.direct;
  approver_ids = 7 ∷ [];
  escalation_chain = [];
  quorum_required = 0;
  timeout_seconds = 86400;
  escalation_timeout_seconds = 3600;
  inherited_from = none;
  rules = [];
  description = none;
}

abbrev no_policies : Policies
no_policies = record { rows = []; log = [] }

-- The second creation is refused, and the last follows an archived version.
abbrev calls : List PolicyCall
calls =
    PolicyCall.create 1 "offers" fields none
    ∷ PolicyCall.create 2 "offers" fields none
    ∷ PolicyCall.create 3 "calls" fields none
    ∷ PolicyCall.supersede 4 "offers" fields (some 9)
    ∷ PolicyCall.archive "offers" none
    ∷ PolicyCall.create 5 "offers" fields none
    ∷ []

versions_of_offers :
    map (λ p. p.version) (of_key "offers" (serve calls no_policies).rows) ≡ 1 ∷ 2 ∷ 3 ∷ []
unfolding serve perform create supersede archive get_active_version get_latest_version_number
    add_version
versions_of_offers = refl

serve-versions_example :
    let s' = serve calls no_policies in
    AreNumbered 0 (of_key "offers" s'.rows)
    × ((get_active_version "offers" s' ≡ (returned none, s'))
        ⊎ ((p : GovernancePolicy) × (get_active_version "offers" s' ≡ (returned (some p), s'))
            × (p.version ≡ get_latest_version_number "offers" s')))
serve-versions_example = serve-versions calls no_policies "offers" refl
