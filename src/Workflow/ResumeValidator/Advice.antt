-- ===== src/Workflow/ResumeValidator/Advice.antt =====
-- The advice of backend/workflows/resume_validator.py and the operations that it recommends.
use the_dashboard.Common.{
  ℕ, true, false, Option, none, some, List, [], ◌∷◌, ◌++◌, ◌==◌, ◌≡◌, ◌≢◌, ◌⊎◌, refl, arith,
  Bool-cases, Option-cases, inl, inr, returned, put_row, length, select,
}
use the_dashboard.Workflow.Status.{active, failed, same_status, validate_transition}
use the_dashboard.Workflow.Database.{ActorType, Workflow, WorkflowCheckpoint, Db, get_by_id}
use the_dashboard.Workflow.Database.Rows.{get_by_id-put_row}
use the_dashboard.Workflow.Runtime.{resume}
use the_dashboard.Workflow.Recovery.{is_beyond_recovery, get_latest, resume_from_checkpoint}
use the_dashboard.Workflow.Approvals.{approvals_of, is_resolvable}
use the_dashboard.Workflow.ResumeValidator.{
  Blocker, checkpoint_restore, direct_resume, ResumeValidation, is_empty, refusal, examine,
  validate,
}

-- What the verdict promises of the operation that it recommends.
abbrev pub IsSound :
    (id : ℕ) → Db → Workflow → ActorType → (actor : Option ℕ) → ResumeValidation → Type 0
IsSound id db w type actor v =
    ((v.can_resume ≡ false) × (v.blockers ≢ []))
    ⊎ (((v.can_resume ≡ true)
          × (v.recommended_strategy ≡ direct_resume)
          × ((resume id type actor db).0 ≡ returned (record w { workflow_status = active }))
          × (get_by_id id (resume id type actor db).1
              ≡ some (record w { workflow_status = active })))
        ⊎ ((c : WorkflowCheckpoint) × (v.can_resume ≡ true)
            × (v.recommended_strategy ≡ checkpoint_restore)
            × (get_latest id db ≡ some c)
            × ((resume_from_checkpoint id actor db).0
                ≡ returned (c, record w { workflow_status = active; current_step = some c.step }))
            × (get_by_id id (resume_from_checkpoint id actor db).1
                ≡ some (record w { workflow_status = active; current_step = some c.step }))))

cons_differs : (b : Blocker) (bs : List Blocker) → b ∷ bs ≢ []
cons_differs b bs h = absurd (ground arith)

append_differs : (b : Blocker) (bs : List Blocker) → bs ++ b ∷ [] ≢ []
append_differs b [] h = absurd (ground arith)
append_differs b (x ∷ bs) h = absurd (ground arith)

append_blocked : (b : Blocker) (bs : List Blocker) → is_empty (bs ++ b ∷ []) ≡ false
append_blocked b [] = refl
append_blocked b (x ∷ bs) = refl

module _ (id : ℕ) (db : Db) (w : Workflow) (found : get_by_id id db ≡ some w) where
  resume-resumed :
      (type : ActorType) (actor : Option ℕ)
      → is_beyond_recovery w.workflow_status ≡ false
      → same_status w.workflow_status active ≡ false
      → same_status w.workflow_status failed ≡ false
      → let v = record w { workflow_status = active } in
        ((resume id type actor db).0 ≡ returned v)
        × (get_by_id id (resume id type actor db).1 ≡ some v)
  unfolding resume
  resume-resumed type actor live off fine =
      let v = record w { workflow_status = active } in
      let ok : validate_transition w.workflow_status active ≡ none =
        unfold validate_transition in ground arith in
      rw found (
        rw ok (
          refl,
          get_by_id-put_row db id w found
              (record db { workflows = put_row (λ x. x.id) v db.workflows }) v refl refl refl,
        ))

  resume_from_checkpoint-resumed :
      (c : WorkflowCheckpoint) (actor : Option ℕ)
      → get_latest id db ≡ some c
      → is_beyond_recovery w.workflow_status ≡ false
      → let v = record w { workflow_status = active; current_step = some c.step } in
        ((resume_from_checkpoint id actor db).0 ≡ returned (c, v))
        × (get_by_id id (resume_from_checkpoint id actor db).1 ≡ some v)
  unfolding resume_from_checkpoint
  resume_from_checkpoint-resumed c actor latest live =
      let v = record w { workflow_status = active; current_step = some c.step } in
      rw latest (
        rw found (
          rw live (
            refl,
            get_by_id-put_row db id w found
                (record db { workflows = put_row (λ x. x.id) v db.workflows }) v refl refl refl,
          )))

  abbrev waiting : ℕ
  waiting = length (select (λ a. is_resolvable a.approval_status) (approvals_of id db))

  examine-IsSound :
      (now : ℕ) (type : ActorType) (actor : Option ℕ)
      → is_beyond_recovery w.workflow_status ≡ false
      → same_status w.workflow_status active ≡ false
      → IsSound id db w type actor (examine id now w.workflow_status db)
  unfolding examine
  examine-IsSound now type actor live off =
      elim (Bool-cases (same_status w.workflow_status failed)) [
        | inr fine ↦ rw fine (elim (Bool-cases (waiting == 0)) [
          | inl free ↦ rw free (
              let (answer, row) = resume-resumed type actor live off fine in
              inr (inl (refl, refl, answer, row)))
          | inr busy ↦ rw busy (inl (refl, cons_differs _ _))
        ])
        | inl bad ↦ rw bad (elim (Option-cases (get_latest id db)) [
          | inl missing ↦ rw missing (inl (append_blocked _ _, append_differs _ _))
          | inr (c, latest) ↦ rw latest (elim (Bool-cases (waiting == 0)) [
            | inl free ↦ rw free (
                let (answer, row) = resume_from_checkpoint-resumed c actor latest live in
                inr (inr (c, refl, refl, refl, answer, row)))
            | inr busy ↦ rw busy (inl (refl, cons_differs _ _))
          ])
        ])
      ]

-- The advice is right: of a workflow that exists, `validate` changes nothing, and either it names a
-- blocker and says that the workflow cannot be resumed, or the operation that it recommends succeeds
-- on the same tables, whoever calls it, and makes the workflow active: `resume` with the step that it
-- has, or `resume_from_checkpoint` with the step of its latest checkpoint.
pub validate-advice :
    (id now : ℕ) (type : ActorType) (actor : Option ℕ) (db : Db) (w : Workflow)
    → get_by_id id db ≡ some w
    → (v : ResumeValidation) × (validate id now db ≡ (returned v, db))
      × IsSound id db w type actor v
unfolding validate
validate-advice id now type actor db w found =
    elim (Bool-cases (is_beyond_recovery w.workflow_status)) [
      | inl over ↦ (
        refusal id (Blocker.terminal w.workflow_status),
        rw found (rw over refl),
        inl (refl, cons_differs _ _),
      )
      | inr live ↦ elim (Bool-cases (same_status w.workflow_status active)) [
        | inl on ↦ (
          refusal id Blocker.already_active,
          rw found (rw live (rw on refl)),
          inl (refl, cons_differs _ _),
        )
        | inr off ↦ (
          examine id now w.workflow_status db,
          rw found (rw live (rw off refl)),
          examine-IsSound id db w found now type actor live off,
        )
      ]
    ]
