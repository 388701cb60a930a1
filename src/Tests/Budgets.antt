-- ===== src/Tests/Budgets.antt =====
-- Runs of the budget enforcer (backend/context/budget.py) on concrete inputs.
use the_dashboard.Common.{Option, none, some, ◌≡◌, ◌⊎◌, refl, returned, raised}
use the_dashboard.Context.Budget.{
  ℤ, pos, negsuc, ContextBudgetLevel, platform, graph, agent, BudgetExceeded, level_order, enforce,
  enforce_levels, enforce_all,
}
use the_dashboard.Context.Budget.Levels.{IsWithin, IsFirst, enforce_all-Verdict}

abbrev usage : ContextBudgetLevel → Option ℤ
usage platform = some (pos 7)
usage graph = some (pos 4)
usage agent = some (pos 0)
usage _ = none

-- The budget of the agents is -1.
abbrev budgets : ContextBudgetLevel → Option ℤ
budgets platform = some (pos 7)
budgets agent = some (negsuc 0)
budgets _ = none

-- A negative budget is refused even without any usage, and a level without a budget is passed over.
enforce_all-usage :
    enforce_all usage budgets (some "call")
    ≡ raised (record { level = agent; budget = negsuc 0; actual = pos 0; scope = some "call" })
unfolding enforce_all enforce_levels enforce
enforce_all-usage = refl

enforce_all-Verdict_example :
    ((enforce_all usage budgets none ≡ returned tt)
      × ((level : ContextBudgetLevel) → IsWithin usage budgets level))
    ⊎ ((e : BudgetExceeded) × (enforce_all usage budgets none ≡ raised e)
        × IsFirst usage budgets none level_order e)
enforce_all-Verdict_example = enforce_all-Verdict usage budgets none
