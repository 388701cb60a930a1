-- ===== src/Workflow/Calls/Keeps.antt =====
-- The rows of completed and cancelled workflows through the operations of backend/workflows.
use native.Mathlib.Decide.{ℕ_discrete}
use the_dashboard.Common.{
  ℕ, String, true, false, ◌||◌, Option, none, some, List, [], ◌∷◌, ◌++◌, ◌≡◌, refl, sym, ◌∙◌, arith,
  ◌==◌, Bool-cases, Option-cases, inl, inr, any_of, put_row, get_row, get_row-put_row_ne,
  get_row-snoc_ne, subst,
}
use the_dashboard.Governance.Engine.{global_scope}
use the_dashboard.Governance.Engine.Gate.{check_freeze-gate, blocking}
use the_dashboard.Workflow.Status.{
  WorkflowStatus, active, failed, same_status, is_terminal, validate_transition,
}
use the_dashboard.Workflow.Database.{
  Dict, ActorType, WorkflowType, Happening, Workflow, CompensatingAction, Db, get_by_id,
}
use the_dashboard.Workflow.Database.Rows.{row_of-id}
use the_dashboard.Workflow.Runtime.{start, advance, transition, workflow_scope}
use the_dashboard.Workflow.Recovery.{
  is_beyond_recovery, get_latest, get_by_step, set_checkpoint, resume_failed,
  resume_from_checkpoint,
}
use the_dashboard.Workflow.Recovery.Preserves.{no_clash}
use the_dashboard.Workflow.Rollback.{rollback, coordinate}
use the_dashboard.Workflow.Rollback.Drift.{cancel_row}
use the_dashboard.Workflow.Rollback.Coordination.{
  coordinate-missing, coordinate-terminal, coordinate-live,
}

abbrev pub stored : ℕ → List Workflow → Option Workflow
stored = get_row (λ w. w.id)

-- Every row with a final status in the first table is the same in the second.
abbrev pub KeepsFinal : List Workflow → List Workflow → Type 0
KeepsFinal rows rows' =
    (id : ℕ) (v : Workflow)
    → stored id rows ≡ some v
    → is_beyond_recovery v.workflow_status ≡ true
    → stored id rows' ≡ some v

KeepsFinal-refl : (rows : List Workflow) → KeepsFinal rows rows
KeepsFinal-refl rows id v h f = h

-- The change of a row whose status is not final.
KeepsFinal-put_row :
    (rows : List Workflow) (w w' : Workflow)
    → stored w'.id rows ≡ some w
    → is_beyond_recovery w.workflow_status ≡ false
    → KeepsFinal rows (put_row (λ v. v.id) w' rows)
KeepsFinal-put_row rows w w' old live id v h f = elim (ℕ_discrete w'.id id) [
  | yes p ↦
      let g : stored id rows ≡ some w = subst (λ k. stored k rows ≡ some w) p old in
      let s : v ≡ w = cc in
      let l : is_beyond_recovery v.workflow_status ≡ false =
        subst (λ x. is_beyond_recovery x.workflow_status ≡ false) (sym s) live in
      absurd (ground arith)
  | no n ↦ get_row-put_row_ne (λ x. x.id) id w' rows n ∙ h
]

KeepsFinal-create :
    (rows : List Workflow) (w : Workflow)
    → stored w.id rows ≡ none
    → KeepsFinal rows (rows ++ w ∷ [])
KeepsFinal-create rows w fresh id v h f = elim (ℕ_discrete w.id id) [
  | yes p ↦
      let g : stored id rows ≡ none = subst (λ k. stored k rows ≡ none) p fresh in
      let b : ⊥ = cc in absurd b
  | no n ↦ get_row-snoc_ne (λ x. x.id) id rows w n ∙ h
]

allowed-live :
    (from to : WorkflowStatus)
    → validate_transition from to ≡ none
    → is_beyond_recovery from ≡ false
unfolding validate_transition
allowed-live from to h = ground arith

live-of_nonterminal : (s : WorkflowStatus) → is_terminal s ≡ false → is_beyond_recovery s ≡ false
unfolding is_terminal
live-of_nonterminal s h = ground arith

live-of_same :
    (s t : WorkflowStatus)
    → same_status s t ≡ true
    → is_beyond_recovery t ≡ false
    → is_beyond_recovery s ≡ false
live-of_same s t h l = ground arith

module _ (db : Db) where
  pub transition-KeepsFinal :
      (id : ℕ) (target : WorkflowStatus) (body : Happening) (t : ActorType) (a : Option ℕ)
      → KeepsFinal db.workflows (transition id target body t a db).1.workflows
  unfolding transition
  transition-KeepsFinal id target body t a = elim (Option-cases (get_by_id id db)) [
    | inl n ↦ rw n (KeepsFinal-refl _)
    | inr (w, p) ↦ rw p (elim (Option-cases (validate_transition w.workflow_status target)) [
      | inl ok ↦ rw ok (
          KeepsFinal-put_row _ w (record w { workflow_status = target }) (row_of-id db id w p)
            (allowed-live w.workflow_status target ok))
      | inr (why, bad) ↦ rw bad (KeepsFinal-refl _)
    ])
  ]

  pub resume_failed-KeepsFinal :
      (id : ℕ) (a : Option ℕ) → KeepsFinal db.workflows (resume_failed id a db).1.workflows
  unfolding resume_failed
  resume_failed-KeepsFinal id a = elim (Option-cases (get_by_id id db)) [
    | inl n ↦ rw n (KeepsFinal-refl _)
    | inr (w, p) ↦ rw p (elim (Bool-cases (same_status w.workflow_status failed)) [
      | inl f ↦ rw f (
          KeepsFinal-put_row _ w (record w { workflow_status = active }) (row_of-id db id w p)
            (live-of_same w.workflow_status failed f refl))
      | inr n ↦ rw n (KeepsFinal-refl _)
    ])
  ]

  pub resume_from_checkpoint-KeepsFinal :
      (id : ℕ) (a : Option ℕ) → KeepsFinal db.workflows (resume_from_checkpoint id a db).1.workflows
  unfolding resume_from_checkpoint
  resume_from_checkpoint-KeepsFinal id a = elim (Option-cases (get_latest id db)) [
    | inl n ↦ rw n (KeepsFinal-refl _)
    | inr (c, q) ↦ rw q (elim (Option-cases (get_by_id id db)) [
      | inl n ↦ rw n (KeepsFinal-refl _)
      | inr (w, p) ↦ rw p (elim (Bool-cases (is_beyond_recovery w.workflow_status)) [
        | inl f ↦ rw f (KeepsFinal-refl _)
        | inr n ↦ rw n (
            KeepsFinal-put_row _ w
              (record w { workflow_status = active; current_step = some c.step })
              (row_of-id db id w p) n)
      ])
    ])
  ]

  pub set_checkpoint-KeepsFinal :
      (id : ℕ) (step : String) (status : WorkflowStatus) (payload : Dict)
      → KeepsFinal db.workflows (set_checkpoint id step status payload db).1.workflows
  unfolding set_checkpoint
  set_checkpoint-KeepsFinal id step status payload = elim (Option-cases (get_by_step id step db)) [
    | inl n ↦ rw n (KeepsFinal-refl _)
    | inr (c, q) ↦ rw q (KeepsFinal-refl _)
  ]

  pub advance-KeepsFinal :
      (str : ℕ → String) (id : ℕ) (step : String) (payload : Dict) (t : ActorType) (a : Option ℕ)
      → KeepsFinal db.workflows (advance str id step payload t a db).1.workflows
  unfolding advance
  advance-KeepsFinal str id step payload t a =
      rw (check_freeze-gate (workflow_scope str id) none "workflow" db.log)
        (elim (Option-cases (blocking (workflow_scope str id) db.log)) [
          | inr (scope, b) ↦ rw b (KeepsFinal-refl _)
          | inl b ↦ rw b (elim (Option-cases (get_by_id id db)) [
            | inl n ↦ rw n (KeepsFinal-refl _)
            | inr (w, p) ↦ rw p (elim (Bool-cases (same_status w.workflow_status active)) [
              | inr n ↦ rw n (KeepsFinal-refl _)
              | inl s ↦ rw s (
                  KeepsFinal-put_row _ w (record w { current_step = some step })
                    (row_of-id db id w p) (live-of_same w.workflow_status active s refl))
            ])
          ])
        ])

  pub start-KeepsFinal :
      (id corr : ℕ) (type : WorkflowType) (lead by : Option ℕ) (t : ActorType)
      → KeepsFinal db.workflows (start id corr type lead by t db).1.workflows
  unfolding start
  start-KeepsFinal id corr type lead by t =
      rw (check_freeze-gate global_scope none "workflow" db.log)
        (elim (Option-cases (blocking global_scope db.log)) [
          | inr (scope, b) ↦ rw b (KeepsFinal-refl _)
          | inl b ↦
              rw b
                (elim (Bool-cases
                  (any_of (λ v. v.id == id || v.correlation_id == corr) db.workflows)) [
                    | inl c ↦ rw c (KeepsFinal-refl _)
                    | inr c ↦ rw c (KeepsFinal-create _ _ (no_clash id corr db.workflows c))
                  ])
        ])

  pub rollback-KeepsFinal :
      (id : ℕ) (reason : String) (t : ActorType) (a : Option ℕ)
      → KeepsFinal db.workflows (rollback id reason t a db).1.workflows
  unfolding rollback
  rollback-KeepsFinal id reason t a = elim (Option-cases (get_by_id id db)) [
    | inl n ↦ rw n (KeepsFinal-refl _)
    | inr (w, p) ↦ rw p (elim (Bool-cases (is_terminal w.workflow_status)) [
      | inl e ↦ rw e (KeepsFinal-refl _)
      | inr n ↦ rw n (
          KeepsFinal-put_row _ w (cancel_row w) (row_of-id db id w p)
            (live-of_nonterminal w.workflow_status n))
    ])
  ]

  pub coordinate-KeepsFinal :
      (id : ℕ) (reason trigger : String) (t : ActorType) (a : Option ℕ)
      (actions : List CompensatingAction)
      → KeepsFinal db.workflows (coordinate id reason trigger t a actions db).1.workflows
  coordinate-KeepsFinal id reason trigger t a actions = elim (Option-cases (get_by_id id db)) [
    | inl n ↦ rw (coordinate-missing id reason trigger t a actions db n) (KeepsFinal-refl _)
    | inr (w, p) ↦ elim (Bool-cases (is_terminal w.workflow_status)) [
      | inl e ↦ rw (coordinate-terminal id reason trigger t a actions db w p e) (KeepsFinal-refl _)
      | inr n ↦ rw (coordinate-live id reason trigger t a actions db w p n) (
          KeepsFinal-put_row _ w (cancel_row w) (row_of-id db id w p)
            (live-of_nonterminal w.workflow_status n))
    ]
  ]
