-- ===== src/Governance/Enforcement/Stopped.antt =====
-- Enforcements after a kill switch (backend/governance/engine.py and freeze.py).
use the_dashboard.Common.{
  ℕ, String, Option, none, some, [], ◌∷◌, ◌++◌, List, ◌≡◌, ◌⊎◌, inl, inr, refl, raised, subst, true,
  Bool-cases,
}
use the_dashboard.Governance.Events.{freeze_propagated, Log, event}
use the_dashboard.Governance.Freeze.{is_frozen, kill_switch}
use the_dashboard.Governance.Freeze.Runs.{Request, serve, is_frozen-serve-kill_switch}
use the_dashboard.Governance.Engine.{frozen, global_scope}
use the_dashboard.Governance.Engine.Gate.{blocking, check_freeze-gate}
use the_dashboard.Governance.Policy.{RiskTier}
use the_dashboard.Governance.Enforcement.{
  Governed, EnforcementError, with_log, scope_or_global, enforce_action,
}

-- The scopes that stop an action on a scope.
abbrev pub Stops : (stopped scope : String) → Type 0
Stops stopped scope = (stopped ≡ global_scope) ⊎ (stopped ≡ scope)

blocking-frozen :
    (stopped scope : String) (log : Log)
    → Stops stopped scope
    → is_frozen stopped log ≡ true
    → (b : String) × Stops b scope × (blocking scope log ≡ some b)
blocking-frozen stopped scope log at f = elim (Bool-cases (is_frozen global_scope log)) [
  | inl g ↦ (global_scope, inl refl, rw g refl)
  | inr g ↦ elim at [
    | inl e ↦ let f' = subst (λ x. is_frozen x log ≡ true) e f in absurd cc
    | inr e ↦
        let f' = subst (λ x. is_frozen x log ≡ true) e f in (scope, inr refl, rw g (rw f' refl))
  ]
]

-- After a kill switch on the scope of an action, or on the global scope, and any further calls of
-- the freeze runtime, every enforcement of the action is refused, whatever the policies say: it
-- raises the error of one of these two scopes and writes one event for it and no audit record.
pub enforce_action-kill_switch :
    (key stopped reason : String) (actor : Option ℕ) (now : ℕ) (before : Log) (calls : List Request)
    (evaluation_id audit_id : ℕ) (action : String) (tier : RiskTier) (given : Option String)
    (who : Option ℕ) (source_runtime : String) (s : Governed)
    → Stops stopped (scope_or_global given)
    → let log = serve calls (kill_switch key stopped reason actor now before).1 in
      (b : String) × Stops b (scope_or_global given)
      × (enforce_action evaluation_id audit_id action tier given who source_runtime (with_log log s)
          ≡ (
            raised (EnforcementError.frozen (frozen b)),
            with_log (log ++ event (freeze_propagated b source_runtime) none who ∷ []) s,
          ))
unfolding enforce_action
enforce_action-kill_switch key stopped reason actor now before calls evaluation_id audit_id action
      tier given who source_runtime s stops =
    let log = serve calls (kill_switch key stopped reason actor now before).1 in
    let f = is_frozen-serve-kill_switch key stopped reason actor now before calls in
    let (b, which, h) = blocking-frozen stopped (scope_or_global given) log stops f in
    (b, which, rw (check_freeze-gate (scope_or_global given) who source_runtime log) (rw h refl))
