-- ===== src/Governance/Evaluator/Latest.antt =====
-- Which policies an evaluation looks at (`_resolve_inheritance` of backend/governance/evaluator.py).
use mathlib.Core.List.{Memᴰ}
use the_dashboard.Common.{
  ℕ, String, List, ◌≡◌, ◌≤◌, str_eq, total, if◌then◌else◌, Option, none, some,
}
use the_dashboard.Governance.Policy.{GovernancePolicySnapshot}
use the_dashboard.Governance.Evaluator.{with_parent}

-- A policy of the same key and at least the version.
abbrev pub HasLater : GovernancePolicySnapshot → List GovernancePolicySnapshot → Type 0
HasLater p table =
    (q : GovernancePolicySnapshot) × Memᴰ q table
    × (q.policy_key ≡ p.policy_key)
    × (p.version ≤ q.version)

-- How many policies have a key.
abbrev pub with_key : String → List GovernancePolicySnapshot → ℕ
with_key key = total (λ q. if str_eq q.policy_key key then 1 else 0)

-- The table has, for each key of the policies, exactly one policy, with the highest version.
abbrev pub IsLatest : (ps table : List GovernancePolicySnapshot) → Type 0
IsLatest ps table =
    ((p : GovernancePolicySnapshot) → Memᴰ p ps → HasLater p table)
    × ((p : GovernancePolicySnapshot) → Memᴰ p table → Memᴰ p ps)
    × ((k : String) → with_key k table ≤ 1)

abbrev pub resolved_by :
    Option GovernancePolicySnapshot → GovernancePolicySnapshot → GovernancePolicySnapshot
resolved_by none p = p
resolved_by (some parent) p = with_parent parent p
