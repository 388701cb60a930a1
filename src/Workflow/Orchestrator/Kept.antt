-- ===== src/Workflow/Orchestrator/Kept.antt =====
-- The snapshots through the operations of backend/workflows.
use the_dashboard.Common.{
  ℕ, String, Bool, true, false, Option, some, List, ◌≡◌, refl, arith, Option-cases, Bool-cases, inl,
  inr, any_of, ◌==◌, get_row, put_row, get_row-snoc_old, state->>=-pure, subst, sym,
}
use the_dashboard.Workflow.Status.{WorkflowStatus}
use the_dashboard.Workflow.Database.{
  ActorType, system, WorkflowType, WorkflowSnapshot, Happening, ApprovalType, RiskLevel,
  CompensatingAction, Dict, Db, get_by_id, get_by_id_or_raise, save, append_event,
}
use the_dashboard.Workflow.Runtime.{start, advance, transition}
use the_dashboard.Workflow.Recovery.{set_checkpoint, resume_failed, resume_from_checkpoint}
use the_dashboard.Workflow.Rollback.{
  rejected_actions, rollback, coordinate, rollback_on_approval_rejection,
}
use the_dashboard.Workflow.Rollback.Coordination.{
  coordinate-missing, coordinate-terminal, coordinate-live,
}
use the_dashboard.Workflow.Status.{is_terminal}
use the_dashboard.Workflow.Approvals.Resolved.{approval_of}
use the_dashboard.Workflow.Orchestrator.{
  rejection, snapshot_if, pause_for_approval, resume_on_approval, rollback_on_rejection,
}
use the_dashboard.Workflow.Snapshots.{take, restore}
use the_dashboard.Workflow.Approvals.{
  request_approval, resolve, escalate, get_approval_or_raise, insert_approval, save_approval,
}

module _ (db : Db) where
  pub transition-snapshots :
      (id : ℕ) (target : WorkflowStatus) (body : Happening) (t : ActorType) (a : Option ℕ)
      → (transition id target body t a db).1.snapshots ≡ db.snapshots
  unfolding transition
  transition-snapshots id target body t a = ground arith

  pub resume_failed-snapshots :
      (id : ℕ) (a : Option ℕ) → (resume_failed id a db).1.snapshots ≡ db.snapshots
  unfolding resume_failed
  resume_failed-snapshots id a = ground arith

  pub resume_from_checkpoint-snapshots :
      (id : ℕ) (a : Option ℕ) → (resume_from_checkpoint id a db).1.snapshots ≡ db.snapshots
  unfolding resume_from_checkpoint
  resume_from_checkpoint-snapshots id a = ground arith

  pub set_checkpoint-snapshots :
      (id : ℕ) (step : String) (status : WorkflowStatus) (payload : Dict)
      → (set_checkpoint id step status payload db).1.snapshots ≡ db.snapshots
  unfolding set_checkpoint
  set_checkpoint-snapshots id step status payload = ground arith

  pub advance-snapshots :
      (str : ℕ → String) (id : ℕ) (step : String) (payload : Dict) (t : ActorType) (a : Option ℕ)
      → (advance str id step payload t a db).1.snapshots ≡ db.snapshots
  unfolding advance
  advance-snapshots str id step payload t a = ground arith

  pub start-snapshots :
      (id corr : ℕ) (type : WorkflowType) (lead by : Option ℕ) (t : ActorType)
      → (start id corr type lead by t db).1.snapshots ≡ db.snapshots
  unfolding start
  start-snapshots id corr type lead by t = ground arith

  pub rollback-snapshots :
      (id : ℕ) (reason : String) (t : ActorType) (a : Option ℕ)
      → (rollback id reason t a db).1.snapshots ≡ db.snapshots
  unfolding rollback
  rollback-snapshots id reason t a = ground arith

  pub request_approval-snapshots :
      (id w : ℕ) (t : ApprovalType) (by : Option ℕ) (risk : RiskLevel) (until : Option ℕ)
      → (request_approval id w t by risk until db).1.snapshots ≡ db.snapshots
  unfolding request_approval get_by_id_or_raise insert_approval save append_event
  request_approval-snapshots id w t by risk until = ground arith

  pub resolve-snapshots :
      (id by : ℕ) (verdict : Bool) (notes : String) (now : ℕ)
      → (resolve id by verdict notes now db).1.snapshots ≡ db.snapshots
  unfolding resolve get_approval_or_raise get_by_id_or_raise save_approval save append_event
  resolve-snapshots id by verdict notes now = ground arith

  pub escalate-snapshots :
      (w : ℕ) (reason : String) (to : Option ℕ) (type : ActorType) (actor : Option ℕ)
      → (escalate w reason to type actor db).1.snapshots ≡ db.snapshots
  unfolding escalate get_by_id_or_raise append_event
  escalate-snapshots w reason to type actor = ground arith

  pub coordinate-snapshots :
      (id : ℕ) (reason trigger : String) (t : ActorType) (a : Option ℕ)
      (actions : List CompensatingAction)
      → (coordinate id reason trigger t a actions db).1.snapshots ≡ db.snapshots
  coordinate-snapshots id reason trigger t a actions = elim (Option-cases (get_by_id id db)) [
    | inl n ↦ rw (coordinate-missing id reason trigger t a actions db n) refl
    | inr (w, p) ↦ elim (Bool-cases (is_terminal w.workflow_status)) [
      | inl e ↦ rw (coordinate-terminal id reason trigger t a actions db w p e) refl
      | inr n ↦ rw (coordinate-live id reason trigger t a actions db w p n) refl
    ]
  ]

  pub restore-snapshots : (id : ℕ) (a : Option ℕ) → (restore id a db).1.snapshots ≡ db.snapshots
  unfolding restore
  restore-snapshots id a = ground arith

-- Every snapshot of the first table is in the second.
abbrev pub Grows : List WorkflowSnapshot → List WorkflowSnapshot → Type 0
Grows rows rows' =
    (id : ℕ) (snap : WorkflowSnapshot)
    → get_row (λ s. s.id) id rows ≡ some snap
    → get_row (λ s. s.id) id rows' ≡ some snap

pub same-Grows : (rows rows' : List WorkflowSnapshot) → rows' ≡ rows → Grows rows rows'
same-Grows rows rows' e id snap h = rw e h

pub take-Grows :
    (snapshot at now id : ℕ) (trigger : Option String) (db : Db)
    → Grows db.snapshots (take snapshot at now id trigger db).1.snapshots
unfolding take
take-Grows snapshot at now id trigger db = elim (Option-cases (get_by_id id db)) [
  | inl n ↦ rw n (λ i snap h. h)
  | inr (w, p) ↦ rw p (elim (Bool-cases (any_of (λ s. s.id == snapshot) db.snapshots)) [
    | inl c ↦ rw c (λ i snap h. h)
    | inr f ↦ rw f (λ i snap. get_row-snoc_old (λ s. s.id) i db.snapshots _ snap)
  ])
]

snapshot_if-Grows :
    (taken : Bool) (snapshot at now id : ℕ) (db : Db)
    → Grows db.snapshots (snapshot_if taken snapshot at now id db).1.snapshots
unfolding snapshot_if
snapshot_if-Grows false snapshot at now id db = λ i snap h. h
snapshot_if-Grows true snapshot at now id db =
    let t =
      state->>=-pure (take snapshot at now id (some "approval_requested")) (λ r. some r.snapshot_id)
        db in
    subst (λ d. Grows db.snapshots d.snapshots) (sym t)
      (take-Grows snapshot at now id (some "approval_requested") db)

pub resume_on_approval-snapshots :
    (id by : ℕ) (notes : String) (now : ℕ) (db : Db)
    → (resume_on_approval id by notes now db).1.snapshots ≡ db.snapshots
unfolding resume_on_approval
resume_on_approval-snapshots id by notes now db =
    ground (arith, resolve-snapshots db id by true notes now)

pub rollback_on_rejection-snapshots :
    (str : ℕ → String) (id w : ℕ) (by : Option ℕ) (reason : String) (db : Db)
    → (rollback_on_rejection str id w by reason db).1.snapshots ≡ db.snapshots
unfolding rollback_on_rejection rollback_on_approval_rejection
rollback_on_rejection-snapshots str id w by reason db = elim (Option-cases (approval_of id db)) [
  | inl n ↦ rw n refl
  | inr (a, p) ↦ rw p (
      let kept =
        coordinate-snapshots
          (record db { approvals = put_row (λ b. b.id) (rejection by reason a) db.approvals }) w
          reason "approval_rejected" system by (rejected_actions str id by reason) in
      ground arith)
]

pub pause_for_approval-Grows :
    (snapshot approval at now id : ℕ) (t : ApprovalType) (by : Option ℕ) (risk : RiskLevel)
    (until : Option ℕ) (taken : Bool) (db : Db)
    → Grows db.snapshots
        (pause_for_approval snapshot approval at now id t by risk until taken db).1.snapshots
unfolding pause_for_approval
pause_for_approval-Grows snapshot approval at now id t by risk until taken db =
    let s = snapshot_if-Grows taken snapshot at now id db in
    let r =
      request_approval-snapshots (snapshot_if taken snapshot at now id db).1 approval id t by risk
        until in
    let e : (pause_for_approval snapshot approval at now id t by risk until taken db).1.snapshots
        ≡ (snapshot_if taken snapshot at now id db).1.snapshots =
      ground arith in
    subst (λ rows. Grows db.snapshots rows) (sym e) s
