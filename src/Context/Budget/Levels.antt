-- ===== src/Context/Budget/Levels.antt =====
-- The enforcement of all levels against the check of one (backend/context/budget.py).
use the_dashboard.Common.{
  String, true, false, Option, none, some, List, [], ◌∷◌, ◌++◌, ◌≡◌, ◌⊎◌, ap, Outcome, refl, arith,
  returned, raised, Option-cases, Bool-cases, inl, inr,
}
use the_dashboard.Context.Budget.{
  ℤ, ContextBudgetLevel, BudgetExceeded, platform, phase, graph, agent, call, level_order, enforce,
  enforce_levels, enforce_all, within_budget,
}

-- The level, where it has a usage and a budget, is within it.
abbrev pub IsWithin : (usage budgets : ContextBudgetLevel → Option ℤ) → ContextBudgetLevel → Type 0
IsWithin usage budgets level =
    (actual budget : ℤ)
    → usage level ≡ some actual
    → budgets level ≡ some budget
    → within_budget level actual budget ≡ true

-- Every level of the list is within its budget.
abbrev pub AreWithin :
    (usage budgets : ContextBudgetLevel → Option ℤ) → List ContextBudgetLevel → Type 0
AreWithin usage budgets [] = Unit
AreWithin usage budgets (level ∷ levels) =
    IsWithin usage budgets level × AreWithin usage budgets levels

-- The error names a level beyond its budget, with the amounts of that level.
abbrev pub IsViolation :
    (usage budgets : ContextBudgetLevel → Option ℤ) → Option String → BudgetExceeded → Type 0
IsViolation usage budgets scope e =
    (usage e.level ≡ some e.actual)
    × (budgets e.level ≡ some e.budget)
    × (within_budget e.level e.actual e.budget ≡ false)
    × (e.scope ≡ scope)

-- The error is for the first level of the list that is beyond its budget.
abbrev pub IsFirst :
    (usage budgets : ContextBudgetLevel → Option ℤ)
    → Option String
    → List ContextBudgetLevel
    → BudgetExceeded
    → Type 0
IsFirst usage budgets scope levels e =
    (before : List ContextBudgetLevel) × (after : List ContextBudgetLevel) × (levels
      ≡ before ++ e.level ∷ after)
    × AreWithin usage budgets before
    × IsViolation usage budgets scope e

-- What the levels of the list come to.
abbrev pub Verdict :
    (usage budgets : ContextBudgetLevel → Option ℤ)
    → Option String
    → List ContextBudgetLevel
    → Outcome BudgetExceeded Unit
    → Type 0
Verdict usage budgets scope levels out =
    ((out ≡ returned tt) × AreWithin usage budgets levels)
    ⊎ ((e : BudgetExceeded) × (out ≡ raised e) × IsFirst usage budgets scope levels e)

module _ (usage budgets : ContextBudgetLevel → Option ℤ) (scope : Option String) where
  enforce-within :
      (level : ContextBudgetLevel) (actual budget : ℤ)
      → within_budget level actual budget ≡ true
      → enforce level actual budget scope ≡ returned tt
  unfolding enforce within_budget
  enforce-within level actual budget h = ground arith

  enforce-beyond :
      (level : ContextBudgetLevel) (actual budget : ℤ)
      → within_budget level actual budget ≡ false
      → enforce level actual budget scope
        ≡ raised (record { level = level; budget = budget; actual = actual; scope = scope })
  unfolding enforce within_budget
  enforce-beyond level actual budget h = ground arith

  extend :
      (level : ContextBudgetLevel) (levels : List ContextBudgetLevel)
      (out : Outcome BudgetExceeded Unit)
      → IsWithin usage budgets level
      → Verdict usage budgets scope levels out
      → Verdict usage budgets scope (level ∷ levels) out
  extend level levels out w (inl (r, all)) = inl (r, (w, all))
  extend level levels out w (inr (e, r, (before, after, p, all, v))) =
      inr (e, r, (level ∷ before, after, ap (λ xs. level ∷ xs) p, (w, all), v))

  module _ (level : ContextBudgetLevel) (levels : List ContextBudgetLevel) where
    unused :
        usage level ≡ none
        → enforce_levels usage budgets scope (level ∷ levels)
          ≡ enforce_levels usage budgets scope levels
    unfolding enforce_levels
    unused n = rw (enforce_levels, n)

    unlimited :
        (actual : ℤ)
        → usage level ≡ some actual
        → budgets level ≡ none
        → enforce_levels usage budgets scope (level ∷ levels)
          ≡ enforce_levels usage budgets scope levels
    unfolding enforce_levels
    unlimited actual p n = rw (enforce_levels, p, n)

    limited :
        (actual budget : ℤ)
        → usage level ≡ some actual
        → budgets level ≡ some budget
        → within_budget level actual budget ≡ true
        → enforce_levels usage budgets scope (level ∷ levels)
          ≡ enforce_levels usage budgets scope levels
    unfolding enforce_levels
    limited actual budget p q w = rw (enforce_levels, p, q, enforce-within level actual budget w)

    exceeded :
        (actual budget : ℤ)
        → usage level ≡ some actual
        → budgets level ≡ some budget
        → within_budget level actual budget ≡ false
        → enforce_levels usage budgets scope (level ∷ levels)
          ≡ raised (record { level = level; budget = budget; actual = actual; scope = scope })
    unfolding enforce_levels
    exceeded actual budget p q n = rw (enforce_levels, p, q, enforce-beyond level actual budget n)

    limited-IsWithin :
        (actual budget : ℤ)
        → usage level ≡ some actual
        → budgets level ≡ some budget
        → within_budget level actual budget ≡ true
        → IsWithin usage budgets level
    limited-IsWithin actual budget p q w a b p' q' =
        let same_actual : a ≡ actual = ground arith in
        let same_budget : b ≡ budget = ground arith in rw (same_actual, same_budget) w

    step-Verdict :
        Verdict usage budgets scope levels (enforce_levels usage budgets scope levels)
        → Verdict usage budgets scope
            (level ∷ levels)
            (enforce_levels usage budgets scope (level ∷ levels))
    step-Verdict v = elim (Option-cases (usage level)) [
      | inl n ↦ rw (unused n) (extend level levels _ (λ a b p q. absurd (ground arith)) v)
      | inr (actual, p) ↦ elim (Option-cases (budgets level)) [
        | inl n ↦
            rw (unlimited actual p n) (extend level levels _ (λ a b p' q. absurd (ground arith)) v)
        | inr (budget, q) ↦ elim (Bool-cases (within_budget level actual budget)) [
          | inl w ↦
              rw (limited actual budget p q w)
                (extend level levels _ (limited-IsWithin actual budget p q w) v)
          | inr n ↦ inr (_, exceeded actual budget p q n, ([], levels, refl, tt, (p, q, n, refl)))
        ]
      ]
    ]

  enforce_levels-Verdict :
      (levels : List ContextBudgetLevel)
      → Verdict usage budgets scope levels (enforce_levels usage budgets scope levels)
  unfolding enforce_levels
  enforce_levels-Verdict [] = inl (refl, tt)
  enforce_levels-Verdict (level ∷ levels) =
      step-Verdict level levels (enforce_levels-Verdict levels)

  AreWithin-all :
      AreWithin usage budgets level_order
      → (level : ContextBudgetLevel) → IsWithin usage budgets level
  AreWithin-all (a, (b, (c, (d, (e, u))))) platform = a
  AreWithin-all (a, (b, (c, (d, (e, u))))) phase = b
  AreWithin-all (a, (b, (c, (d, (e, u))))) graph = c
  AreWithin-all (a, (b, (c, (d, (e, u))))) agent = d
  AreWithin-all (a, (b, (c, (d, (e, u))))) call = e

-- The enforcement of all levels either returns, and then each level that has a usage and a budget is
-- within it, or it raises for the first level in the order that is not, with the amounts of that
-- level.
pub enforce_all-Verdict :
    (usage budgets : ContextBudgetLevel → Option ℤ) (scope : Option String)
    → ((enforce_all usage budgets scope ≡ returned tt)
        × ((level : ContextBudgetLevel) → IsWithin usage budgets level))
      ⊎ ((e : BudgetExceeded) × (enforce_all usage budgets scope ≡ raised e)
          × IsFirst usage budgets scope level_order e)
unfolding enforce_all
enforce_all-Verdict usage budgets scope =
    elim (enforce_levels-Verdict usage budgets scope level_order) [
      | inl (r, all) ↦ inl (r, AreWithin-all usage budgets scope all)
      | inr v ↦ inr v
    ]
