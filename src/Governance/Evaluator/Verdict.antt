-- ===== src/Governance/Evaluator/Verdict.antt =====
-- The result of an evaluation and its errors (backend/governance/evaluator.py).
use mathlib.Core.List.{Memᴰ}
use the_dashboard.Common.{
  ℕ, String, List, [], ◌∷◌, Option, none, some, ◌≡◌, ◌≢◌, ◌≤◌, ◌⊎◌, inl, inr, refl, subst, ◌∙◌,
  returned, raised,
}
use the_dashboard.Governance.Policy.{
  ActionClassification, safe, restricted, privileged, forbidden, requires_approval, RiskTier,
  EscalationStep, GovernancePolicySnapshot,
}
use the_dashboard.Governance.Evaluator.{
  Kind, rows, snapshots, EvaluationError, missing_rank, not_a_dataclass, not_subscriptable, Attempt,
  PolicyEvaluationResult, classification_rank, default_result, by_key, parent_of, resolve_one,
  resolve_each, resolve_inheritance, rank, max_by, active_only, matching, read_steps, result_from,
  judge, evaluate, classify, classify_action,
}
use the_dashboard.Governance.Evaluator.Highest.{
  Attempt-cases, IsHighest, max_by-IsHighest, max_by-map,
}

-- The first classification has a rank, and it is at most that of the second.
abbrev pub IsAtMost : ActionClassification → ActionClassification → Type 0
IsAtMost c d =
    (j : ℕ) × ((k : ℕ) × (classification_rank c ≡ some j)
      × (classification_rank d ≡ some k)
      × (j ≤ k))

-- What a result, or an error, says of the matching policies.
abbrev Judgement :
    Kind
    → String
    → RiskTier
    → ℕ
    → List GovernancePolicySnapshot
    → Attempt PolicyEvaluationResult
    → Type 0
Judgement kind action tier id ps (returned r) =
    ((p : GovernancePolicySnapshot) → Memᴰ p ps → IsAtMost p.classification r.classification)
    × (((ps ≡ []) × (r ≡ default_result action tier id))
        ⊎ ((w : GovernancePolicySnapshot) × Memᴰ w ps
            × (r ≡ result_from action id w.escalation_chain w)))
    × (classify ps ≡ returned r.classification)
Judgement kind action tier id ps (raised missing_rank) =
    (p : GovernancePolicySnapshot) × Memᴰ p ps × (p.classification ≡ requires_approval)
Judgement kind action tier id ps (raised not_subscriptable) =
    (kind ≡ snapshots) × ((p : GovernancePolicySnapshot) × Memᴰ p ps × (p.escalation_chain ≢ []))
Judgement kind action tier id ps (raised not_a_dataclass) = ⊥

abbrev pub Verdict :
    Kind
    → String
    → RiskTier
    → ℕ
    → List GovernancePolicySnapshot
    → Attempt PolicyEvaluationResult
    → Type 0
Verdict kind action tier id policies (raised not_a_dataclass) =
    (kind ≡ rows)
    × ((p : GovernancePolicySnapshot) × Memᴰ p (by_key (active_only policies) [])
        × ((parent : GovernancePolicySnapshot) × (parent_of (by_key (active_only policies) [])
                p.inherited_from
              ≡ some parent)))
Verdict kind action tier id policies (returned r) =
    (classify_action kind action policies ≡ returned r.classification)
    × ((resolved : List GovernancePolicySnapshot) × (resolve_inheritance kind (active_only policies)
          ≡ returned resolved)
        × Judgement kind action tier id (matching action resolved) (returned r))
Verdict kind action tier id policies r =
    (resolved : List GovernancePolicySnapshot) × (resolve_inheritance kind (active_only policies)
      ≡ returned resolved)
    × Judgement kind action tier id (matching action resolved) r

as_verdict :
    (kind : Kind) (action : String) (tier : RiskTier) (id : ℕ)
    (policies resolved : List GovernancePolicySnapshot)
    → resolve_inheritance kind (active_only policies) ≡ returned resolved
    → (r : Attempt PolicyEvaluationResult)
    → Judgement kind action tier id (matching action resolved) r
    → Verdict kind action tier id policies r
unfolding classify_action
as_verdict kind action tier id policies resolved h (returned r) j = (rw h j.2, (resolved, h, j))
as_verdict kind action tier id policies resolved h (raised missing_rank) j = (resolved, h, j)
as_verdict kind action tier id policies resolved h (raised not_subscriptable) j = (resolved, h, j)
as_verdict kind action tier id policies resolved h (raised not_a_dataclass) j = absurd j

rank_cases :
    (c : ActionClassification)
    → ((k : ℕ) × (classification_rank c ≡ some k) × (rank c ≡ returned k))
      ⊎ ((c ≡ requires_approval) × (rank c ≡ raised missing_rank))
rank_cases safe = inl (0, refl, refl)
rank_cases restricted = inl (1, refl, refl)
rank_cases privileged = inl (2, refl, refl)
rank_cases forbidden = inl (3, refl, refl)
rank_cases requires_approval = inr (refl, refl)

rank_returned :
    (c : ActionClassification) (k : ℕ) → rank c ≡ returned k → classification_rank c ≡ some k
rank_returned c k h = elim (rank_cases c) [ inl (j, e, f) ↦ cc | inr (e, f) ↦ cc ]

rank_raised :
    (c : ActionClassification) (e : EvaluationError)
    → rank c ≡ raised e
    → (e ≡ missing_rank) × (c ≡ requires_approval)
rank_raised c e h = elim (rank_cases c) [ inl (j, p, f) ↦ (cc, cc) | inr (p, f) ↦ (cc, p) ]

read_steps_cases :
    (kind : Kind) (steps : List EscalationStep)
    → (read_steps kind steps ≡ returned steps)
      ⊎ ((read_steps kind steps ≡ raised not_subscriptable) × (kind ≡ snapshots) × (steps ≢ []))
read_steps_cases rows steps = inl refl
read_steps_cases snapshots [] = inl refl
read_steps_cases snapshots (step ∷ steps) = inr (refl, refl, λ p. cc)

module _ (kind : Kind) (action : String) (tier : RiskTier) (id : ℕ) where
  judge-Judgement :
      (ps : List GovernancePolicySnapshot)
      → Judgement kind action tier id ps (judge kind action tier id ps)
  unfolding result_from
  judge-Judgement [] = (λ p m. elim m [ ], inl (refl, refl), refl)
  judge-Judgement (p ∷ ps) =
      let same = max_by-map rank (λ q. q.classification) p ps in
      let high = max_by-IsHighest (λ q. rank q.classification) p ps in
      elim (Attempt-cases (max_by (λ q. rank q.classification) p ps)) [
        | inr (e, h) ↦
            let (q, m, f) = subst (IsHighest (λ q. rank q.classification) (p ∷ ps)) h high in
            let (i, a) = rank_raised q.classification e f in rw h (rw i (q, m, a))
        | inl (w, h) ↦
            let (m, (k, f, all)) = subst (IsHighest (λ q. rank q.classification) (p ∷ ps)) h high in
            rw h (elim (read_steps_cases kind w.escalation_chain) [
              | inr (r, s, t) ↦ rw r (s, (w, m, t))
              | inl r ↦ rw r (
                λ q n.
                    let (j, g, le) = all q n in
                    (
                      j,
                      (
                        k,
                        rank_returned q.classification j g,
                        rank_returned w.classification k f,
                        le,
                      ),
                    ),
                inr (w, m, refl),
                same ∙ rw h refl,
              )
            ])
      ]

  module _ (table : List GovernancePolicySnapshot) where
    resolve_one_cases :
        (p : GovernancePolicySnapshot)
        → let found = parent_of table p.inherited_from in
          ((q : GovernancePolicySnapshot) × (resolve_one kind p found ≡ returned q))
          ⊎ ((resolve_one kind p found ≡ raised not_a_dataclass)
              × (kind ≡ rows)
              × ((parent : GovernancePolicySnapshot) × (found ≡ some parent)))
    resolve_one_cases p = by_parent kind (parent_of table p.inherited_from)
      where
        by_parent :
            (kind : Kind) (found : Option GovernancePolicySnapshot)
            → ((q : GovernancePolicySnapshot) × (resolve_one kind p found ≡ returned q))
              ⊎ ((resolve_one kind p found ≡ raised not_a_dataclass)
                  × (kind ≡ rows)
                  × ((parent : GovernancePolicySnapshot) × (found ≡ some parent)))
        by_parent kind none = inl (p, refl)
        by_parent rows (some parent) = inr (refl, refl, (parent, refl))
        by_parent snapshots (some parent) = inl (_, refl)

    resolve_each-raised :
        (ps : List GovernancePolicySnapshot) (e : EvaluationError)
        → resolve_each kind table ps ≡ raised e
        → (e ≡ not_a_dataclass)
          × (kind ≡ rows)
          × ((p : GovernancePolicySnapshot) × Memᴰ p ps
              × ((parent : GovernancePolicySnapshot) × (parent_of table p.inherited_from
                    ≡ some parent)))
    resolve_each-raised [] e h = cc
    resolve_each-raised (p ∷ ps) e h = elim (resolve_one_cases p) [
      | inr (o, k, at) ↦
          let c : resolve_each kind table (p ∷ ps) ≡ raised not_a_dataclass = rw o refl in
          (cc, k, (p, Memᴰ.head refl, at))
      | inl (q, o) ↦ elim (Attempt-cases (resolve_each kind table ps)) [
        | inl (qs, r) ↦
            let c : resolve_each kind table (p ∷ ps) ≡ returned (q ∷ qs) = rw o (rw r refl) in cc
        | inr (f, r) ↦
            let (i, k, (x, m, at)) = resolve_each-raised ps f r in
            let c : resolve_each kind table (p ∷ ps) ≡ raised f = rw o (rw r refl) in
            (cc, k, (x, Memᴰ.tail m, at))
      ]
    ]

-- An evaluation returns a result or raises an error, and either says this of the active policies
-- after inheritance. A result comes from a matching policy of the highest rank, or is the default
-- result where none matches; every matching policy has a rank, and none a higher one; and
-- classify_action gives the same classification. An error is the KeyError of a matching policy with
-- the classification requires_approval, the TypeError of a row with an active parent, or the
-- TypeError of a matching snapshot with an escalation chain.
pub evaluate-Verdict :
    (kind : Kind) (action : String) (tier : RiskTier) (id : ℕ)
    (policies : List GovernancePolicySnapshot)
    → Verdict kind action tier id policies (evaluate kind action tier id policies)
unfolding evaluate classify_action resolve_inheritance
evaluate-Verdict kind action tier id policies =
    elim (Attempt-cases (resolve_inheritance kind (active_only policies))) [
      | inl (resolved, h) ↦ rw h (
          as_verdict kind action tier id policies resolved h
            (judge kind action tier id (matching action resolved))
            (judge-Judgement kind action tier id (matching action resolved)))
      | inr (e, h) ↦
          let table = by_key (active_only policies) [] in
          let (i, k, at) = resolve_each-raised kind action tier id table table e h in
          rw h (rw i (k, at))
    ]
