-- ===== src/Governance/Enforcement/Ruling.antt =====
-- The outcomes of an enforcement (backend/governance/engine.py).
use mathlib.Core.List.{Memᴰ}
use the_dashboard.Common.{
  ℕ, String, true, false, Option, none, some, List, [], ◌∷◌, ◌++◌, map, ◌≡◌, ◌≢◌, ◌⊎◌, inl, inr,
  refl, sym, subst, ◌∙◌, ap, arith, Outcome, returned, raised, Option-cases,
}
use the_dashboard.Governance.Events.{freeze_propagated, action_denied, event}
use the_dashboard.Governance.Freeze.{is_frozen}
use the_dashboard.Governance.Engine.{frozen, global_scope}
use the_dashboard.Governance.Engine.Gate.{blocking, check_freeze-gate}
use the_dashboard.Governance.Policy.{
  ActionClassification, safe, restricted, privileged, forbidden, requires_approval, RiskTier,
  GovernancePolicySnapshot, get_active,
}
use the_dashboard.Governance.Evaluator.{
  rows, Attempt, row_attributes, PolicyEvaluationResult, active_only, matching, resolve_inheritance,
  result_from, evaluate,
}
use the_dashboard.Governance.Evaluator.Highest.{Attempt-cases}
use the_dashboard.Governance.Evaluator.Verdict.{IsAtMost, Verdict, evaluate-Verdict}
use the_dashboard.Governance.Enforcement.{
  AuditLog, Governed, EnforcementError, denied, not_evaluated, with_log, value, is_forbidden,
  scope_or_global, evaluate_action, record_audit, emit_action_denied, deny, enforce_action,
}

-- The policies that an enforcement reads.
abbrev pub in_force : Governed → List GovernancePolicySnapshot
in_force s = map row_attributes (get_active s.policies)

-- The scope is open: neither it nor the global scope is frozen.
abbrev pub IsOpen : String → Governed → Type 0
IsOpen scope s =
    (is_frozen global_scope s.policies.log ≡ false) × (is_frozen scope s.policies.log ≡ false)

-- The session after one more audit record.
abbrev pub audited :
    (audit_id : ℕ) (action : String)
    → RiskTier
    → (scope : String) (actor_id : Option ℕ) (source_runtime : String) → PolicyEvaluationResult
    → Governed
    → Governed
audited audit_id action tier scope actor_id source_runtime result s = record s {
  audit_logs = s.audit_logs ++ entry ∷ [];
}
  where
    entry : AuditLog
    entry = record {
      id = audit_id;
      actor_id = actor_id;
      payload = record {
        action = action;
        classification = result.classification;
        risk_tier = tier;
        requires_approval = result.requires_approval;
        evaluation_id = result.evaluation_id;
        matched_policy_key = result.matched_policy_key;
        scope = scope;
        source_runtime = source_runtime;
      };
    }

module _ (action : String) (s : Governed) where
  -- The policies that match, after inheritance.
  abbrev Among : (GovernancePolicySnapshot → Type 0) → Type 0
  Among P =
      (resolved : List GovernancePolicySnapshot) × (resolve_inheritance rows
          (active_only (in_force s))
        ≡ returned resolved)
      × ((p : GovernancePolicySnapshot) → Memᴰ p (matching action resolved) → P p)

  abbrev HasForbidden : Type 0
  HasForbidden =
      (resolved : List GovernancePolicySnapshot) × (resolve_inheritance rows
          (active_only (in_force s))
        ≡ returned resolved)
      × ((p : GovernancePolicySnapshot) × Memᴰ p (matching action resolved)
          × (p.classification ≡ forbidden))

module _ (evaluation_id audit_id : ℕ) (action : String) (tier : RiskTier) (scope : String)
    (actor_id : Option ℕ) (source_runtime : String) (s : Governed) where
  abbrev Evaluated : Attempt PolicyEvaluationResult → Type 0
  Evaluated r = evaluate rows action tier evaluation_id (in_force s) ≡ r

  abbrev record_of : PolicyEvaluationResult → Governed
  record_of r = audited audit_id action tier scope actor_id source_runtime r s

  abbrev pub Ruling : Outcome EnforcementError PolicyEvaluationResult × Governed → Type 0
  Ruling (returned r, s') =
      IsOpen scope s
      × Evaluated (returned r)
      × Among action s (λ p. p.classification ≢ forbidden)
      × (s' ≡ record_of r)
  Ruling (raised (EnforcementError.frozen e), s') =
      (b : String) × (blocking scope s.policies.log ≡ some b)
      × (e ≡ frozen b)
      × (s'
          ≡ with_log
              (s.policies.log ++ event (freeze_propagated b source_runtime) none actor_id ∷ []) s)
  Ruling (raised (denied a c i), s') =
      IsOpen scope s
      × ((r : PolicyEvaluationResult) × Evaluated (returned r)
          × HasForbidden action s
          × (denied a c i ≡ denied action "forbidden" r.evaluation_id)
          × (s'
              ≡ with_log
                  (s.policies.log
                    ++ event (action_denied action "forbidden" r.evaluation_id scope) none actor_id
                      ∷ [])
                  (record_of r)))
  Ruling (raised (not_evaluated e), s') = IsOpen scope s × Evaluated (raised e) × (s' ≡ s)

at_most_forbidden : (c : ActionClassification) → IsAtMost forbidden c → c ≡ forbidden
at_most_forbidden safe (j, (k, p, q, le)) = absurd (ground arith)
at_most_forbidden restricted (j, (k, p, q, le)) = absurd (ground arith)
at_most_forbidden privileged (j, (k, p, q, le)) = absurd (ground arith)
at_most_forbidden forbidden h = refl
at_most_forbidden requires_approval (j, (k, p, q, le)) = absurd cc

forbidden_cases :
    (c : ActionClassification)
    → ((is_forbidden c ≡ true) × (c ≡ forbidden)) ⊎ ((is_forbidden c ≡ false) × (c ≢ forbidden))
forbidden_cases forbidden = inl (refl, refl)
forbidden_cases safe = inr (refl, λ p. cc)
forbidden_cases restricted = inr (refl, λ p. cc)
forbidden_cases privileged = inr (refl, λ p. cc)
forbidden_cases requires_approval = inr (refl, λ p. cc)

blocking-none :
    (scope : String) (s : Governed) → blocking scope s.policies.log ≡ none → IsOpen scope s
blocking-none scope s h = ground arith

module _ (evaluation_id : ℕ) (action : String) (tier : RiskTier) (s : Governed)
    (r : PolicyEvaluationResult)
    (f : evaluate rows action tier evaluation_id (in_force s) ≡ returned r) where
  verdict : Verdict rows action tier evaluation_id (in_force s) (returned r)
  verdict =
      subst (Verdict rows action tier evaluation_id (in_force s)) f
        (evaluate-Verdict rows action tier evaluation_id (in_force s))

  none_forbidden : r.classification ≢ forbidden → Among action s (λ p. p.classification ≢ forbidden)
  none_forbidden n =
      let (c, (resolved, h, (at_most, source, k))) = verdict in
      (
        resolved,
        h,
        λ p m e. n (
            at_most_forbidden r.classification
              (subst (λ d. IsAtMost d r.classification) e (at_most p m))),
      )

  some_forbidden : r.classification ≡ forbidden → HasForbidden action s
  unfolding result_from
  some_forbidden e =
      let (c, (resolved, h, (at_most, source, k))) = verdict in
      elim source [
        | inl (empty, d) ↦
            let q : r.classification ≡ safe = ap (λ x. x.classification) d in
            absurd (safe_not_forbidden (sym q ∙ e))
        | inr (w, m, d) ↦
            let q : r.classification ≡ w.classification = ap (λ x. x.classification) d in
            (resolved, h, (w, m, sym q ∙ e))
      ]
    where
      safe_not_forbidden : ¬ (safe ≡ forbidden)
      safe_not_forbidden p = cc

-- What an enforcement comes to. It returns only if neither the global scope nor the given one is
-- frozen and no active policy that matches, after inheritance, forbids the action; it then has
-- written one audit record and nothing else. A frozen scope stops it before anything is evaluated,
-- with one event. A denial has a matching policy that forbids the action, and leaves the audit
-- record and one event. An error of the evaluation leaves the session as it was.
pub enforce_action-Ruling :
    (evaluation_id audit_id : ℕ) (action : String) (tier : RiskTier) (given : Option String)
    (actor_id : Option ℕ) (source_runtime : String) (s : Governed)
    → Ruling evaluation_id audit_id action tier
        (scope_or_global given)
        actor_id
        source_runtime
        s
        (enforce_action evaluation_id audit_id action tier given actor_id source_runtime s)
unfolding enforce_action evaluate_action record_audit deny emit_action_denied
enforce_action-Ruling evaluation_id audit_id action tier given actor_id source_runtime s =
    let scope = scope_or_global given in
    rw (check_freeze-gate scope actor_id source_runtime s.policies.log)
      (elim (Option-cases (blocking scope s.policies.log)) [
        | inr (b, h) ↦ rw h (b, h, refl, refl)
        | inl h ↦
            rw h (elim (Attempt-cases (evaluate rows action tier evaluation_id (in_force s))) [
              | inr (e, f) ↦ rw f (blocking-none scope s h, f, refl)
              | inl (r, f) ↦ rw f (elim (forbidden_cases r.classification) [
                | inl (k, c) ↦ rw k (
                  blocking-none scope s h,
                  (
                    r,
                    f,
                    some_forbidden evaluation_id action tier s r f c,
                    ap (λ d. denied action (value d) r.evaluation_id) c,
                    ap
                        (λ d.
                          with_log
                            (s.policies.log
                              ++ event (action_denied action (value d) r.evaluation_id scope) none
                                  actor_id
                                ∷ [])
                            (audited audit_id action tier scope actor_id source_runtime r s))
                        c,
                  ),
                )
                | inr (k, c) ↦ rw k (
                  blocking-none scope s h,
                  f,
                  none_forbidden evaluation_id action tier s r f c,
                  refl,
                )
              ])
            ])
      ])
