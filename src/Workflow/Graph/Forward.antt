-- ===== src/Workflow/Graph/Forward.antt =====
-- The validator of an advance and the steps that may follow (backend/workflows/graph.py).
use the_dashboard.Common.{
  ℕ, zero, suc, String, true, false, not, ◌&&◌, some, List, [], ◌∷◌, ◌≡◌, refl, sym, subst, ◌∙◌,
  arith, leb, str_eq, eq_iff, str_elem, Bool-cases, inl, inr,
}
use the_dashboard.Workflow.Database.{WorkflowType, qualification, follow_up, closing}
use the_dashboard.Workflow.Graph.{
  step_graph, index, drop, is_backward, get_valid_next_steps, is_valid_step,
}

-- No step stands twice in the list.
abbrev Distinct : List String → Type 0
Distinct [] = Unit
Distinct (s ∷ steps) = (str_elem s steps ≡ false) × Distinct steps

step_graph-Distinct : (w : WorkflowType) → Distinct (step_graph w)
unfolding step_graph
step_graph-Distinct WorkflowType.outreach = (refl, (refl, (refl, (refl, tt))))
step_graph-Distinct qualification = (refl, (refl, (refl, (refl, tt))))
step_graph-Distinct follow_up = (refl, (refl, (refl, tt)))
step_graph-Distinct closing = (refl, (refl, (refl, tt)))

-- What comes after the n-th element are the elements with a greater index.
str_elem-drop :
    (step : String) (steps : List String) (n : ℕ)
    → Distinct steps
    → str_elem step (drop (suc n) steps) ≡ (str_elem step steps && not (leb (index step steps) n))
str_elem-drop step [] n d = refl
str_elem-drop step (s ∷ steps) zero d = elim (Bool-cases (str_eq step s)) [
  | inl e ↦
      let p : step ≡ s = (eq_iff step s).0 e in
      let f : str_elem step steps ≡ false = subst (λ x. str_elem x steps ≡ false) (sym p) d.0 in
      rw e (rw f refl)
  | inr f ↦ rw f (ground arith)
]
str_elem-drop step (s ∷ steps) (suc n) d =
    let ih = str_elem-drop step steps n d.1 in
    elim (Bool-cases (str_eq step s)) [
      | inl e ↦
          let p : step ≡ s = (eq_iff step s).0 e in
          let f : str_elem step steps ≡ false = subst (λ x. str_elem x steps ≡ false) (sym p) d.0 in
          let g : str_elem step (drop (suc n) steps) ≡ false = ih ∙ rw f refl in
          rw g (rw e (ground arith))
      | inr f ↦ rw f (ih ∙ ground arith)
    ]

-- Between two canonical steps of a type, an advance is refused as backward exactly when the next step
-- is none of those that `get_valid_next_steps` gives for the current one.
pub is_backward-valid_next :
    (w : WorkflowType) (current next : String)
    → is_valid_step w current ≡ true
    → is_valid_step w next ≡ true
    → is_backward w (some current) next
      ≡ not (str_elem next (get_valid_next_steps w (some current)))
unfolding is_valid_step is_backward get_valid_next_steps
is_backward-valid_next w current next c n =
    let d =
      str_elem-drop next (step_graph w) (index current (step_graph w)) (step_graph-Distinct w) in
    rw c (rw n (rw d (rw n (ground arith))))
