-- ===== src/Governance/Engine/Gate.antt =====
-- The branches of `check_freeze` (backend/governance/engine.py).
use the_dashboard.Common.{
  ℕ, String, Option, none, some, [], ◌∷◌, ◌++◌, ◌≡◌, Outcome, returned, raised, arith, str_eq,
  eq_iff, Bool-cases, inl, inr, if◌then◌else◌,
}
use the_dashboard.Governance.Events.{freeze_propagated, Log, event}
use the_dashboard.Governance.Freeze.{is_frozen}
use the_dashboard.Governance.Engine.{GovernanceError, frozen, global_scope, check_freeze}

-- The scope that blocks a call, if one does.
abbrev pub blocking : String → Log → Option String
blocking scope log =
    if is_frozen global_scope log
    then some global_scope
    else if is_frozen scope log
    then some scope
    else none

abbrev pub gate : Option String → Option ℕ → String → Log → Outcome GovernanceError (Unit {0}) × Log
gate none actor source log = (returned tt, log)
gate (some scope) actor source log =
    (raised (frozen scope), log ++ event (freeze_propagated scope source) none actor ∷ [])

-- The gate is open exactly when neither the global scope nor the given one is frozen, and then it
-- writes nothing; otherwise it raises the error of the blocking scope, the global one first, and
-- appends one `freeze_propagated` event for it.
pub check_freeze-gate :
    (scope : String) (actor : Option ℕ) (source : String) (log : Log)
    → check_freeze scope actor source log ≡ gate (blocking scope log) actor source log
unfolding check_freeze
check_freeze-gate scope actor source log = elim (Bool-cases (str_eq scope global_scope)) [
  | inl s ↦ let p : scope ≡ global_scope = (eq_iff scope global_scope).0 s in rw p (ground arith)
  | inr n ↦ rw n (ground arith)
]
