-- ===== src/Workflow/Calls/Final.antt =====
-- Completed and cancelled workflows over sequences of calls of backend/workflows.
use the_dashboard.Common.{ℕ, String, true, some, List, [], ◌∷◌, ◌≡◌}
use the_dashboard.Workflow.Status.{active, paused, completed, failed, cancelled}
use the_dashboard.Workflow.Database.{
  Workflow, Db, workflow_paused, workflow_failed, workflow_cancelled, workflow_resumed,
  workflow_completed,
}
use the_dashboard.Workflow.Runtime.{pause, resume, complete, fail, cancel}
use the_dashboard.Workflow.Recovery.{is_beyond_recovery}
use the_dashboard.Workflow.Calls.{Call, perform, serve}
use the_dashboard.Workflow.Calls.Keeps.{
  stored, KeepsFinal, transition-KeepsFinal, resume_failed-KeepsFinal,
  resume_from_checkpoint-KeepsFinal, set_checkpoint-KeepsFinal, advance-KeepsFinal,
  start-KeepsFinal, rollback-KeepsFinal, coordinate-KeepsFinal,
}

module _ (str : ℕ → String) where
  perform-KeepsFinal : (c : Call) (db : Db) → KeepsFinal db.workflows (perform str c db).workflows
  unfolding perform pause resume complete fail cancel
  perform-KeepsFinal (Call.start id corr type lead by t) db =
      start-KeepsFinal db id corr type lead by t
  perform-KeepsFinal (Call.advance id step payload t a) db =
      advance-KeepsFinal db str id step payload t a
  perform-KeepsFinal (Call.pause id reason t a) db =
      transition-KeepsFinal db id paused (workflow_paused reason) t a
  perform-KeepsFinal (Call.resume id t a) db =
      transition-KeepsFinal db id active workflow_resumed t a
  perform-KeepsFinal (Call.complete id payload t a) db =
      transition-KeepsFinal db id completed (workflow_completed payload) t a
  perform-KeepsFinal (Call.fail id reason t a) db =
      transition-KeepsFinal db id failed (workflow_failed reason) t a
  perform-KeepsFinal (Call.cancel id reason t a) db =
      transition-KeepsFinal db id cancelled (workflow_cancelled reason) t a
  perform-KeepsFinal (Call.resume_failed id a) db = resume_failed-KeepsFinal db id a
  perform-KeepsFinal (Call.resume_from_checkpoint id a) db =
      resume_from_checkpoint-KeepsFinal db id a
  perform-KeepsFinal (Call.set_checkpoint id step status payload) db =
      set_checkpoint-KeepsFinal db id step status payload
  perform-KeepsFinal (Call.rollback id reason t a) db = rollback-KeepsFinal db id reason t a
  perform-KeepsFinal (Call.coordinate id reason trigger t a actions) db =
      coordinate-KeepsFinal db id reason trigger t a actions

  pub serve-KeepsFinal :
      (cs : List Call) (db : Db) → KeepsFinal db.workflows (serve str cs db).workflows
  unfolding serve
  serve-KeepsFinal [] db id v h f = h
  serve-KeepsFinal (c ∷ cs) db id v h f =
      serve-KeepsFinal cs (perform str c db) id v (perform-KeepsFinal c db id v h f) f

-- A workflow that is completed or cancelled keeps its row through every sequence of calls of the
-- runtime, the recovery, the checkpoints and the rollbacks.
pub stored-serve :
    (str : ℕ → String) (cs : List Call) (db : Db) (id : ℕ) (v : Workflow)
    → stored id db.workflows ≡ some v
    → is_beyond_recovery v.workflow_status ≡ true
    → stored id (serve str cs db).workflows ≡ some v
stored-serve str cs db id v h f = serve-KeepsFinal str cs db id v h f
