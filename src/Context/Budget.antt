-- ===== src/Context/Budget.antt =====
-- backend/context/budget.py: token budgets at five levels. Amounts are integers, since a budget may be
-- negative; the two dicts are functions from the levels. The proof is in the module below this one.
pub mod Levels
use the_dashboard.Common.{
  ℕ, String, Bool, true, false, not, ◌||◌, ◌&&◌, Option, none, some, List, [], ◌∷◌, leb, ltb,
  Outcome, returned, raised, if◌then◌else◌,
}

-- The integers over the native natural numbers: `pos n` is n and `negsuc n` is -1 - n.
pub data ℤ : Type 0 where
  pos : ℕ → ℤ
  negsuc : ℕ → ℤ

-- `x > y` on integers
abbrev pub is_above : ℤ → ℤ → Bool
is_above (pos x) (pos y) = ltb y x
is_above (pos x) (negsuc y) = true
is_above (negsuc x) (pos y) = false
is_above (negsuc x) (negsuc y) = ltb x y

pub data ContextBudgetLevel : Type 0 where
  platform phase graph agent call : ContextBudgetLevel

-- `_LEVEL_ORDER`
abbrev pub level_order : List ContextBudgetLevel
level_order = platform ∷ phase ∷ graph ∷ agent ∷ call ∷ []

-- `ContextBudgetExceededError`
pub record BudgetExceeded : Type 0 where
  pub level : ContextBudgetLevel
  pub budget : ℤ
  pub actual : ℤ
  pub scope : Option String

unfoldable pub enforce :
    ContextBudgetLevel → (actual budget : ℤ) → Option String → Outcome BudgetExceeded Unit
enforce level actual budget scope =
    if not (is_above budget (pos 0)) || is_above actual budget
    then raised (record { level = level; budget = budget; actual = actual; scope = scope })
    else returned tt

-- The loop of `enforce_all` over the levels that are left.
unfoldable pub enforce_levels :
    (usage budgets : ContextBudgetLevel → Option ℤ)
    → Option String
    → List ContextBudgetLevel
    → Outcome BudgetExceeded Unit
enforce_levels usage budgets scope [] = returned tt
enforce_levels usage budgets scope (level ∷ levels) =
    let rest = enforce_levels usage budgets scope levels in
    elim (usage level) [
      | none ↦ rest
      | some actual ↦ elim (budgets level) [
        | none ↦ rest
        | some budget ↦ elim (enforce level actual budget scope) [
          | raised e ↦ raised e
          | returned u ↦ rest
        ]
      ]
    ]

unfoldable pub enforce_all :
    (usage budgets : ContextBudgetLevel → Option ℤ) → Option String → Outcome BudgetExceeded Unit
enforce_all usage budgets scope = enforce_levels usage budgets scope level_order

unfoldable pub within_budget : ContextBudgetLevel → (actual budget : ℤ) → Bool
within_budget level actual budget = is_above budget (pos 0) && not (is_above actual budget)
