-- ===== src/Workflow/Recovery/Preserves.antt =====
-- The replay invariant through the operations of the runtime and of backend/workflows/recovery.py.
use the_dashboard.Common.{
  ℕ, String, false, ◌||◌, Option, none, some, List, [], ◌∷◌, ◌≡◌, refl, arith, ◌==◌, Bool-cases,
  Option-cases, inl, inr, any_of, str_eq, get_row,
}
use the_dashboard.Governance.Engine.{global_scope}
use the_dashboard.Governance.Engine.Gate.{check_freeze-gate, blocking}
use the_dashboard.Workflow.Status.{WorkflowStatus, active, failed, same_status, validate_transition}
use the_dashboard.Workflow.Database.{
  Value, text, Dict, get, merge, Workflow, WorkflowType, ActorType, Happening, WorkflowEvent,
  workflow_advanced, recovery_resumed, Db, get_by_id,
}
use the_dashboard.Workflow.Database.Dicts.{get-merge-none}
use the_dashboard.Workflow.Runtime.{start, advance, transition, workflow_scope}
use the_dashboard.Workflow.Database.Rows.{row_of-id}
use the_dashboard.Workflow.Recovery.{
  Derived, status_events, new_step, derive_one, resume_failed, resume_from_checkpoint, get_latest,
  is_beyond_recovery, set_checkpoint, get_by_step,
}
use the_dashboard.Workflow.Recovery.Replay.{
  persisted, IsReplayable, IsReplayable-commit, IsReplayable-quiet, IsReplayable-create,
}

-- What makes an event tell the truth about a change of status.
abbrev pub Announces : Happening → WorkflowStatus → Type 0
Announces body target =
    (status_events body ≡ some target) × ((old : Option Value) → new_step body old ≡ old)

-- The payload of an advance does not itself speak of a step, and the step has a name.
abbrev pub IsPlain : String → Dict → Type 0
IsPlain step payload = (get "step" payload ≡ none) × (str_eq step "" ≡ false)

told_step :
    (d : Derived) (step : String) (payload : Dict)
    → IsPlain step payload
    → (e : WorkflowEvent) → e.body ≡ workflow_advanced (merge (("step", text step) ∷ []) payload)
    → derive_one d e ≡ record { status = d.status; step = some (text step) }
unfolding derive_one
told_step d step payload (p, n) e b =
    let g = get-merge-none "step" (("step", text step) ∷ []) payload p in ground (arith, g)

pub no_clash :
    (id corr : ℕ) (rows : List Workflow)
    → any_of (λ v. v.id == id || v.correlation_id == corr) rows ≡ false
    → get_row (λ w. w.id) id rows ≡ none
no_clash id corr [] h = refl
no_clash id corr (w ∷ rows) h = ground (arith, no_clash id corr rows)

told :
    (d : Derived) (target : WorkflowStatus) (body : Happening)
    → status_events body ≡ some target
    → ((old : Option Value) → new_step body old ≡ old)
    → (e : WorkflowEvent) → e.body ≡ body
    → derive_one d e ≡ record { status = target; step = d.step }
unfolding derive_one
told d target body s t e b = ground (arith, t d.step)

module _ (db : Db) (r : IsReplayable db) where
  pub transition-IsReplayable :
      (id : ℕ) (target : WorkflowStatus) (body : Happening) (actor_type : ActorType)
      (actor : Option ℕ)
      → Announces body target
      → IsReplayable (transition id target body actor_type actor db).1
  unfolding transition
  transition-IsReplayable id target body actor_type actor (s, t) =
      elim (Option-cases (get_by_id id db)) [
        | inl n ↦ rw n r
        | inr (w, p) ↦ rw p (elim (Option-cases (validate_transition w.workflow_status target)) [
          | inl ok ↦ rw ok (
              IsReplayable-commit db _ r w (record w { workflow_status = target }) _
                (row_of-id db id w p) refl (told (persisted w) target body s t _ refl) refl refl)
          | inr (why, bad) ↦ rw bad r
        ])
      ]

  pub resume_failed-IsReplayable :
      (id : ℕ) (actor : Option ℕ) → IsReplayable (resume_failed id actor db).1
  unfolding resume_failed status_events new_step
  resume_failed-IsReplayable id actor = elim (Option-cases (get_by_id id db)) [
    | inl n ↦ rw n r
    | inr (w, p) ↦ rw p (elim (Bool-cases (same_status w.workflow_status failed)) [
      | inl f ↦ rw f (
          IsReplayable-commit db _ r w (record w { workflow_status = active }) _
            (row_of-id db id w p) refl
            (told (persisted w) active recovery_resumed refl (λ _. refl) _ refl) refl refl)
      | inr n ↦ rw n r
    ])
  ]

  pub resume_from_checkpoint-IsReplayable :
      (id : ℕ) (actor : Option ℕ) → IsReplayable (resume_from_checkpoint id actor db).1
  unfolding resume_from_checkpoint derive_one
  resume_from_checkpoint-IsReplayable id actor = elim (Option-cases (get_latest id db)) [
    | inl n ↦ rw n r
    | inr (c, q) ↦ rw q (elim (Option-cases (get_by_id id db)) [
      | inl n ↦ rw n r
      | inr (w, p) ↦ rw p (elim (Bool-cases (is_beyond_recovery w.workflow_status)) [
        | inl f ↦ rw f r
        | inr n ↦ rw n (
            IsReplayable-commit db _ r w
              (record w { workflow_status = active; current_step = some c.step }) _
              (row_of-id db id w p) refl refl refl refl)
      ])
    ])
  ]

  pub set_checkpoint-IsReplayable :
      (id : ℕ) (step : String) (status : WorkflowStatus) (payload : Dict)
      → IsReplayable (set_checkpoint id step status payload db).1
  unfolding set_checkpoint
  set_checkpoint-IsReplayable id step status payload =
      elim (Option-cases (get_by_step id step db)) [
        | inl n ↦ rw n (IsReplayable-quiet db _ r refl refl)
        | inr (c, q) ↦ rw q r
      ]

  pub advance-IsReplayable :
      (str : ℕ → String) (id : ℕ) (step : String) (payload : Dict) (actor_type : ActorType)
      (actor : Option ℕ)
      → IsPlain step payload
      → IsReplayable (advance str id step payload actor_type actor db).1
  unfolding advance
  advance-IsReplayable str id step payload actor_type actor plain =
      rw (check_freeze-gate (workflow_scope str id) none "workflow" db.log)
        (elim (Option-cases (blocking (workflow_scope str id) db.log)) [
          | inr (scope, b) ↦ rw b (IsReplayable-quiet db _ r refl refl)
          | inl b ↦ rw b (elim (Option-cases (get_by_id id db)) [
            | inl n ↦ rw n r
            | inr (w, p) ↦ rw p (elim (Bool-cases (same_status w.workflow_status active)) [
              | inr n ↦ rw n r
              | inl a ↦ rw a (
                  IsReplayable-commit db _ r w (record w { current_step = some step }) _
                    (row_of-id db id w p) refl (told_step (persisted w) step payload plain _ refl)
                    refl refl)
            ])
          ])
        ])

  pub start-IsReplayable :
      (id corr : ℕ) (type : WorkflowType) (lead by : Option ℕ) (actor_type : ActorType)
      → IsReplayable (start id corr type lead by actor_type db).1
  unfolding start derive_one status_events new_step
  start-IsReplayable id corr type lead by actor_type =
      rw (check_freeze-gate global_scope none "workflow" db.log)
        (elim (Option-cases (blocking global_scope db.log)) [
          | inr (scope, b) ↦ rw b (IsReplayable-quiet db _ r refl refl)
          | inl b ↦
              rw b
                (elim (Bool-cases
                  (any_of (λ v. v.id == id || v.correlation_id == corr) db.workflows)) [
                    | inl c ↦ rw c r
                    | inr c ↦ rw c (
                        IsReplayable-create db _ r _ _ (no_clash id corr db.workflows c) refl refl
                          refl refl)
                  ])
        ])
