-- ===== src/Governance/Evaluator/Inheritance.antt =====
-- The policies with their inherited rules and patterns (backend/governance/evaluator.py).
use the_dashboard.Common.{
  String, Option, none, some, List, [], ◌∷◌, Outcome, returned, raised, ltb, str_eq, find_by,
  if◌then◌else◌,
}
use the_dashboard.Governance.Policy.{GovernancePolicy, GovernancePolicySnapshot, to_snapshot}
use the_dashboard.Workflow.Database.{merge}

-- What the list of policies holds.
pub data Kind : Type 0 where
  rows snapshots : Kind

-- `missing_rank` is the KeyError of a classification without a rank, the others are TypeErrors.
pub data EvaluationError : Type 0 where
  missing_rank not_a_dataclass not_subscriptable : EvaluationError

abbrev pub Attempt : Type 0 → Type 0
Attempt = Outcome EvaluationError

infixl 5 ◌>>=◌
abbrev pub ◌>>=◌ : {A B : Type 0} → Attempt A → (A → Attempt B) → Attempt B
returned a >>= f = f a
raised e >>= f = raised e

-- The attributes of a row under the names that the evaluator reads; no snapshot is captured.
abbrev pub row_attributes : GovernancePolicy → GovernancePolicySnapshot
row_attributes p = to_snapshot p.id 0 p

-- The policies of a key are replaced by a later version, in their place.
abbrev pub keep_highest :
    GovernancePolicySnapshot → List GovernancePolicySnapshot → List GovernancePolicySnapshot
keep_highest p [] = p ∷ []
keep_highest p (q ∷ table) =
    if str_eq q.policy_key p.policy_key
    then if ltb q.version p.version then p ∷ table else q ∷ table
    else q ∷ keep_highest p table

-- `by_key`, in the order in which the keys were first seen
unfoldable pub by_key :
    List GovernancePolicySnapshot → List GovernancePolicySnapshot → List GovernancePolicySnapshot
by_key [] table = table
by_key (p ∷ policies) table = by_key policies (keep_highest p table)

-- The own patterns, or else those of the parent.
abbrev pub patterns_or : (inherited own : List String) → List String
patterns_or inherited [] = inherited
patterns_or inherited (p ∷ own) = p ∷ own

abbrev pub with_parent : (parent pol : GovernancePolicySnapshot) → GovernancePolicySnapshot
with_parent parent pol = record pol {
  rules = merge parent.rules pol.rules;
  action_patterns = patterns_or parent.action_patterns pol.action_patterns;
}

-- `dataclasses.replace` takes no row.
abbrev pub inherit :
    Kind → (parent pol : GovernancePolicySnapshot) → Attempt GovernancePolicySnapshot
inherit rows parent pol = raised not_a_dataclass
inherit snapshots parent pol = returned (with_parent parent pol)

abbrev pub parent_of :
    List GovernancePolicySnapshot → Option String → Option GovernancePolicySnapshot
parent_of table none = none
parent_of table (some key) =
    if str_eq key "" then none else find_by (λ q. str_eq q.policy_key key) table

abbrev pub resolve_one :
    Kind
    → GovernancePolicySnapshot
    → Option GovernancePolicySnapshot
    → Attempt GovernancePolicySnapshot
resolve_one kind pol none = returned pol
resolve_one kind pol (some parent) = inherit kind parent pol

abbrev pub resolve_each :
    Kind
    → (table policies : List GovernancePolicySnapshot) → Attempt (List GovernancePolicySnapshot)
resolve_each kind table [] = returned []
resolve_each kind table (pol ∷ policies) = do
  one ← resolve_one kind pol (parent_of table pol.inherited_from)
  rest ← resolve_each kind table policies
  returned (one ∷ rest)

-- `_resolve_inheritance`
unfoldable pub resolve_inheritance :
    Kind → List GovernancePolicySnapshot → Attempt (List GovernancePolicySnapshot)
resolve_inheritance kind policies = let table = by_key policies [] in resolve_each kind table table
