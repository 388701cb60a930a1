-- ===== src/Workflow/Recovery/Replay.antt =====
-- The row of a workflow and the replay of its events (backend/workflows/recovery.py).
use the_dashboard.Common.{
  ℕ, String, Option, none, some, List, [], ◌∷◌, ◌++◌, ◌≡◌, ◌≢◌, refl, sym, ap, ◌∙◌, arith, ◌==◌,
  select, select-append, append-nil, put_row, get_row-put_row_self, get_row-put_row_ne,
  get_row-snoc_ne, get_row-snoc_self,
}
use native.Mathlib.Decide.{ℕ_discrete}
use the_dashboard.Workflow.Database.{Value, text, Workflow, WorkflowEvent, Db, get_by_workflow}
use the_dashboard.Workflow.Database.Rows.{row_of}
use the_dashboard.Workflow.Recovery.{Derived, derive_one, derive, initial}

abbrev pub as_value : Option String → Option Value
as_value none = none
as_value (some s) = some (text s)

-- What the replay of a workflow's events should give.
abbrev pub persisted : Workflow → Derived
persisted w = record { status = w.workflow_status; step = as_value w.current_step }

pub record IsReplayable (db : Db) : Type 0 where
  pub known :
      (id : ℕ) (w : Workflow)
      → row_of id db ≡ some w
      → derive initial (get_by_workflow id db) ≡ persisted w
  pub unknown : (id : ℕ) → row_of id db ≡ none → get_by_workflow id db ≡ []

pub derive-snoc :
    (d : Derived) (es : List WorkflowEvent) (e : WorkflowEvent)
    → derive d (es ++ e ∷ []) ≡ derive_one (derive d es) e
unfolding derive
derive-snoc d [] e = refl
derive-snoc d (x ∷ es) e = derive-snoc (derive_one d x) es e

-- One more event in the table.
module _ (db db' : Db) (e : WorkflowEvent) (more : db'.events ≡ db.events ++ e ∷ []) where
  pub get_by_workflow-own :
      (id : ℕ) → e.workflow_id ≡ id → get_by_workflow id db' ≡ get_by_workflow id db ++ e ∷ []
  unfolding get_by_workflow
  get_by_workflow-own id h =
      rw more (select-append (λ x. x.workflow_id == id) db.events (e ∷ []) ∙ ground arith)

  pub get_by_workflow-other :
      (id : ℕ) → e.workflow_id ≢ id → get_by_workflow id db' ≡ get_by_workflow id db
  unfolding get_by_workflow
  get_by_workflow-other id h = rw more (
      select-append (λ x. x.workflow_id == id) db.events (e ∷ [])
      ∙ ground (arith, append-nil (select (λ x. x.workflow_id == id) db.events)))

-- A change of a row together with an event that describes it.
module _ (db db' : Db) (r : IsReplayable db) (w w' : Workflow) (e : WorkflowEvent)
    (stored : row_of w'.id db ≡ some w) (about : e.workflow_id ≡ w'.id)
    (told : derive_one (persisted w) e ≡ persisted w')
    (rows : db'.workflows ≡ put_row (λ v. v.id) w' db.workflows)
    (more : db'.events ≡ db.events ++ e ∷ []) where
  row_own : row_of w'.id db' ≡ some w'
  row_own = rw rows (get_row-put_row_self (λ v. v.id) w' db.workflows w stored)

  row_other : (id : ℕ) → w'.id ≢ id → row_of id db' ≡ row_of id db
  row_other id h = rw rows (get_row-put_row_ne (λ v. v.id) id w' db.workflows h)

  derive_own : derive initial (get_by_workflow w'.id db') ≡ persisted w'
  derive_own = rw (get_by_workflow-own db db' e more w'.id about) (
      derive-snoc initial (get_by_workflow w'.id db) e
      ∙ ap (λ d. derive_one d e) (r.known w'.id w stored)
      ∙ told)

  known_after :
      (id : ℕ) (v : Workflow)
      → row_of id db' ≡ some v
      → derive initial (get_by_workflow id db') ≡ persisted v
  known_after id v h = elim (ℕ_discrete w'.id id) [
    | yes p ↦
        let g : row_of w'.id db' ≡ some v = rw (← p) at h in
        let s : w' ≡ v = cc row_own in rw (← p) (derive_own ∙ ap persisted s)
    | no n ↦
        rw (get_by_workflow-other db db' e more id (λ q. n (sym about ∙ q)))
          (r.known id v (sym (row_other id n) ∙ h))
  ]

  unknown_after : (id : ℕ) → row_of id db' ≡ none → get_by_workflow id db' ≡ []
  unknown_after id h = elim (ℕ_discrete w'.id id) [
    | yes p ↦ (let g : row_of w'.id db' ≡ none = rw (← p) at h in cc row_own)
    | no n ↦
        rw (get_by_workflow-other db db' e more id (λ q. n (sym about ∙ q)))
          (r.unknown id (sym (row_other id n) ∙ h))
  ]

  pub IsReplayable-commit : IsReplayable db'
  IsReplayable-commit = record { known = known_after; unknown = unknown_after }

-- The rows and the events are as before.
pub IsReplayable-quiet :
    (db db' : Db)
    → IsReplayable db
    → db'.workflows ≡ db.workflows
    → db'.events ≡ db.events
    → IsReplayable db'
unfolding get_by_workflow
IsReplayable-quiet db db' r rows events = record {
  known = λ id w h. rw events (r.known id w (rw rows at h));
  unknown = λ id h. rw events (r.unknown id (rw rows at h));
}

-- A new row together with the event of its start.
module _ (db db' : Db) (r : IsReplayable db) (w : Workflow) (e : WorkflowEvent)
    (fresh : row_of w.id db ≡ none) (about : e.workflow_id ≡ w.id)
    (told : derive_one initial e ≡ persisted w) (rows : db'.workflows ≡ db.workflows ++ w ∷ [])
    (more : db'.events ≡ db.events ++ e ∷ []) where
  row_new : row_of w.id db' ≡ some w
  row_new = rw rows (get_row-snoc_self (λ v. v.id) db.workflows w fresh)

  row_old : (id : ℕ) → w.id ≢ id → row_of id db' ≡ row_of id db
  row_old id h = rw rows (get_row-snoc_ne (λ v. v.id) id db.workflows w h)

  derive_new : derive initial (get_by_workflow w.id db') ≡ persisted w
  derive_new = rw (get_by_workflow-own db db' e more w.id about) (
      derive-snoc initial (get_by_workflow w.id db) e
      ∙ rw (r.unknown w.id fresh) (unfold derive in told))

  pub IsReplayable-create : IsReplayable db'
  IsReplayable-create = record {
    known = λ id v h. elim (ℕ_discrete w.id id) [
      | yes p ↦
          let g : row_of w.id db' ≡ some v = rw (← p) at h in
          let s : w ≡ v = cc row_new in rw (← p) (derive_new ∙ ap persisted s)
      | no n ↦
          rw (get_by_workflow-other db db' e more id (λ q. n (sym about ∙ q)))
            (r.known id v (sym (row_old id n) ∙ h))
    ];
    unknown = λ id h. elim (ℕ_discrete w.id id) [
      | yes p ↦ (let g : row_of w.id db' ≡ none = rw (← p) at h in cc row_new)
      | no n ↦
          rw (get_by_workflow-other db db' e more id (λ q. n (sym about ∙ q)))
            (r.unknown id (sym (row_old id n) ∙ h))
    ];
  }
