-- ===== src/Workflow/Orchestrator/Restored.antt =====
-- Restoring a snapshot (backend/workflows/snapshot.py) after other calls.
use the_dashboard.Common.{
  ℕ, String, false, Option, some, List, [], ◌∷◌, ◌≡◌, refl, sym, ◌∙◌, subst, ◌==◌, any_of, get_row,
  get_row-snoc_self, get_row-unkeyed, returned, put_row,
}
use the_dashboard.Workflow.Status.{
  WorkflowStatus, pending, active, paused, completed, failed, cancelled,
}
use the_dashboard.Workflow.Database.{
  Workflow, WorkflowSnapshot, workflow_paused, workflow_resumed, workflow_completed,
  workflow_failed, workflow_cancelled, Db, get_by_id,
}
use the_dashboard.Workflow.Database.Rows.{get_by_id-put_row, get_by_id-id}
use the_dashboard.Workflow.Runtime.{pause, resume, complete, fail, cancel}
use the_dashboard.Workflow.Recovery.{is_beyond_recovery}
use the_dashboard.Workflow.Calls
use the_dashboard.Workflow.Calls.{Call}
use the_dashboard.Workflow.Approvals.Single
use the_dashboard.Workflow.Approvals.Single.{GateCall}
use the_dashboard.Workflow.Snapshots.{
  text_of, parse_status, capture, new_snapshot, to_result, take, put_back, restore,
}
use the_dashboard.Workflow.Orchestrator.Kept.{
  Grows, same-Grows, transition-snapshots, resume_failed-snapshots,
  resume_from_checkpoint-snapshots, set_checkpoint-snapshots, advance-snapshots, start-snapshots,
  rollback-snapshots, coordinate-snapshots, request_approval-snapshots, resolve-snapshots,
  escalate-snapshots, restore-snapshots, take-Grows, pause_for_approval-Grows,
  resume_on_approval-snapshots, rollback_on_rejection-snapshots,
}
use the_dashboard.Workflow.Orchestrator.Calls.{Act, perform, serve}

module _ (str : ℕ → String) where
  runtime-snapshots : (c : Call) (db : Db) → (Calls.perform str c db).snapshots ≡ db.snapshots
  unfolding Calls.perform pause resume complete fail cancel
  runtime-snapshots (Call.start id corr type lead by t) db =
      start-snapshots db id corr type lead by t
  runtime-snapshots (Call.advance id step payload t a) db =
      advance-snapshots db str id step payload t a
  runtime-snapshots (Call.pause id reason t a) db =
      transition-snapshots db id paused (workflow_paused reason) t a
  runtime-snapshots (Call.resume id t a) db = transition-snapshots db id active workflow_resumed t a
  runtime-snapshots (Call.complete id payload t a) db =
      transition-snapshots db id completed (workflow_completed payload) t a
  runtime-snapshots (Call.fail id reason t a) db =
      transition-snapshots db id failed (workflow_failed reason) t a
  runtime-snapshots (Call.cancel id reason t a) db =
      transition-snapshots db id cancelled (workflow_cancelled reason) t a
  runtime-snapshots (Call.resume_failed id a) db = resume_failed-snapshots db id a
  runtime-snapshots (Call.resume_from_checkpoint id a) db = resume_from_checkpoint-snapshots db id a
  runtime-snapshots (Call.set_checkpoint id step status payload) db =
      set_checkpoint-snapshots db id step status payload
  runtime-snapshots (Call.rollback id reason t a) db = rollback-snapshots db id reason t a
  runtime-snapshots (Call.coordinate id reason trigger t a actions) db =
      coordinate-snapshots db id reason trigger t a actions

  gate-snapshots : (c : GateCall) (db : Db) → (Single.perform c db).snapshots ≡ db.snapshots
  unfolding Single.perform
  gate-snapshots (GateCall.request_approval a w t by risk until) db =
      request_approval-snapshots db a w t by risk until
  gate-snapshots (GateCall.resolve a by verdict notes now) db =
      resolve-snapshots db a by verdict notes now
  gate-snapshots (GateCall.escalate w reason to type actor) db =
      escalate-snapshots db w reason to type actor
  gate-snapshots (GateCall.elsewhere rows) db = refl

  perform-Grows : (c : Act) (db : Db) → Grows db.snapshots (perform str c db).snapshots
  unfolding perform
  perform-Grows (Act.runtime c) db = same-Grows _ _ (runtime-snapshots c db)
  perform-Grows (Act.gate c) db = same-Grows _ _ (gate-snapshots c db)
  perform-Grows (Act.take snapshot at now id trigger) db = take-Grows snapshot at now id trigger db
  perform-Grows (Act.restore snapshot actor) db =
      same-Grows _ _ (restore-snapshots db snapshot actor)
  perform-Grows (Act.pause_for_approval snapshot approval at now id t by risk until taken) db =
      pause_for_approval-Grows snapshot approval at now id t by risk until taken db
  perform-Grows (Act.resume_on_approval approval by notes now) db =
      same-Grows _ _ (resume_on_approval-snapshots approval by notes now db)
  perform-Grows (Act.rollback_on_rejection approval id by reason) db =
      same-Grows _ _ (rollback_on_rejection-snapshots str approval id by reason db)

  pub serve-Grows : (cs : List Act) (db : Db) → Grows db.snapshots (serve str cs db).snapshots
  unfolding serve
  serve-Grows [] db id snap h = h
  serve-Grows (c ∷ cs) db id snap h =
      serve-Grows cs (perform str c db) id snap (perform-Grows c db id snap h)

-- The text of a status is read back as that status.
parse_status-text_of : (s : WorkflowStatus) → parse_status (text_of s) ≡ some s
unfolding parse_status
parse_status-text_of pending = refl
parse_status-text_of active = refl
parse_status-text_of paused = refl
parse_status-text_of completed = refl
parse_status-text_of failed = refl
parse_status-text_of cancelled = refl

module _ (sid at now id : ℕ) (trigger : Option String) where
  abbrev taken_of : Workflow → Db → WorkflowSnapshot
  taken_of w db = new_snapshot sid at w (capture w now db) trigger

  pub take-taken :
      (w : Workflow) (db : Db)
      → get_by_id id db ≡ some w
      → any_of (λ s. s.id == sid) db.snapshots ≡ false
      → ((take sid at now id trigger db).0 ≡ returned (to_result (taken_of w db)))
        × (get_row (λ s. s.id) sid (take sid at now id trigger db).1.snapshots
            ≡ some (taken_of w db))
  unfolding take
  take-taken w db found fresh = rw found (
      rw fresh (
        refl,
        get_row-snoc_self (λ s. s.id) db.snapshots (taken_of w db)
            (get_row-unkeyed (λ s. s.id) sid db.snapshots fresh),
      ))

-- What `restore` does with a snapshot that `take` wrote.
pub restore-restored :
    (sid : ℕ) (actor : Option ℕ) (snap : WorkflowSnapshot) (w v : Workflow) (db : Db)
    → get_row (λ s. s.id) sid db.snapshots ≡ some snap
    → snap.workflow_status ≡ text_of w.workflow_status
    → get_by_id snap.workflow_id db ≡ some v
    → is_beyond_recovery v.workflow_status ≡ false
    → ((restore sid actor db).0 ≡ returned (to_result snap))
      × (get_by_id snap.workflow_id (restore sid actor db).1
          ≡ some
              (record v { workflow_status = w.workflow_status; current_step = snap.current_step }))
unfolding restore
restore-restored sid actor snap w v db row status found live =
    let parsed : parse_status snap.workflow_status ≡ some w.workflow_status =
      rw status (parse_status-text_of w.workflow_status) in
    rw row (
      rw found (
        rw live (
          rw parsed (
            refl,
            get_by_id-put_row db snap.workflow_id v found
                (record db {
                  workflows =
                      put_row (λ x. x.id) (put_back w.workflow_status snap.current_step v)
                        db.workflows;
                })
                (put_back w.workflow_status snap.current_step v) refl refl refl,
          ))))

-- A snapshot of a workflow, taken under a new identifier, can be restored after any calls of the
-- runtimes, the approvals, the snapshots and their orchestrator, and any other changes of the
-- workflows, that leave the workflow neither completed nor cancelled: `restore` returns what `take`
-- returned, and the row has the status and the step of the time of the snapshot, and else what it
-- had just before.
pub restore-serve :
    (str : ℕ → String) (cs : List Act) (sid at now id : ℕ) (trigger : Option String)
    (actor : Option ℕ) (w v : Workflow) (db : Db)
    → get_by_id id db ≡ some w
    → any_of (λ s. s.id == sid) db.snapshots ≡ false
    → let db' = serve str cs (take sid at now id trigger db).1 in
      get_by_id id db' ≡ some v
      → is_beyond_recovery v.workflow_status ≡ false
      → ((restore sid actor db').0 ≡ (take sid at now id trigger db).0)
        × (get_by_id id (restore sid actor db').1
            ≡ some
                (record v { workflow_status = w.workflow_status; current_step = w.current_step }))
restore-serve str cs sid at now id trigger actor w v db found fresh later live =
    let (result, row) = take-taken sid at now id trigger w db found fresh in
    let db' = serve str cs (take sid at now id trigger db).1 in
    let snap = new_snapshot sid at w (capture w now db) trigger in
    let row' = serve-Grows str cs (take sid at now id trigger db).1 sid snap row in
    let k : w.id ≡ id = get_by_id-id db id w found in
    let (e, r) =
      restore-restored sid actor snap w v db' row' refl
        (subst (λ i. get_by_id i db' ≡ some v) (sym k) later) live in
    (
      e ∙ sym result,
      subst
          (λ i.
            get_by_id i (restore sid actor db').1
            ≡ some
                (record v { workflow_status = w.workflow_status; current_step = w.current_step }))
          k r,
    )
