-- ===== src/Workflow/Calls/Replayed.antt =====
-- The replay of backend/workflows/recovery.py over sequences of calls.
use the_dashboard.Common.{
  ℕ, String, true, Option, none, some, List, [], ◌∷◌, ◌≡◌, refl, arith, returned, eq_iff, length,
}
use the_dashboard.Workflow.Status.{
  WorkflowStatus, same_status, active, paused, completed, failed, cancelled,
}
use the_dashboard.Workflow.Database.{
  Workflow, Db, empty_db, get_by_id, get_by_workflow, workflow_paused, workflow_failed,
  workflow_cancelled, workflow_resumed, workflow_completed,
}
use the_dashboard.Workflow.Database.Rows.{get_by_id-row_of}
use the_dashboard.Workflow.Runtime.{pause, resume, complete, fail, cancel}
use the_dashboard.Workflow.Recovery.{
  status_events, new_step, same_step, derive, initial, replay, ConsistencyResult, consistency_check,
}
use the_dashboard.Workflow.Recovery.Replay.{IsReplayable, as_value}
use the_dashboard.Workflow.Recovery.Preserves.{
  IsPlain, transition-IsReplayable, resume_failed-IsReplayable, resume_from_checkpoint-IsReplayable,
  set_checkpoint-IsReplayable, advance-IsReplayable, start-IsReplayable,
}
use the_dashboard.Workflow.Calls.{Call, perform, serve}

-- A call that is no rollback and, if it is an advance, names a step that its payload does not
-- overwrite.
abbrev pub IsTold : Call → Type 0
IsTold (Call.advance id step payload t a) = IsPlain step payload
IsTold (Call.rollback id reason t a) = ⊥
IsTold (Call.coordinate id reason trigger t a actions) = ⊥
IsTold _ = Unit

abbrev pub AllTold : List Call → Type 0
AllTold [] = Unit
AllTold (c ∷ cs) = IsTold c × AllTold cs

module _ (str : ℕ → String) where
  pub perform-IsReplayable :
      (c : Call) (db : Db) → IsTold c → IsReplayable db → IsReplayable (perform str c db)
  unfolding perform pause resume complete fail cancel status_events new_step
  perform-IsReplayable (Call.start id corr type lead by t) db h r =
      start-IsReplayable db r id corr type lead by t
  perform-IsReplayable (Call.advance id step payload t a) db h r =
      advance-IsReplayable db r str id step payload t a h
  perform-IsReplayable (Call.pause id reason t a) db h r =
      transition-IsReplayable db r id paused (workflow_paused reason) t a (refl, λ _. refl)
  perform-IsReplayable (Call.resume id t a) db h r =
      transition-IsReplayable db r id active workflow_resumed t a (refl, λ _. refl)
  perform-IsReplayable (Call.complete id payload t a) db h r =
      transition-IsReplayable db r id completed (workflow_completed payload) t a (refl, λ _. refl)
  perform-IsReplayable (Call.fail id reason t a) db h r =
      transition-IsReplayable db r id failed (workflow_failed reason) t a (refl, λ _. refl)
  perform-IsReplayable (Call.cancel id reason t a) db h r =
      transition-IsReplayable db r id cancelled (workflow_cancelled reason) t a (refl, λ _. refl)
  perform-IsReplayable (Call.resume_failed id a) db h r = resume_failed-IsReplayable db r id a
  perform-IsReplayable (Call.resume_from_checkpoint id a) db h r =
      resume_from_checkpoint-IsReplayable db r id a
  perform-IsReplayable (Call.set_checkpoint id step status payload) db h r =
      set_checkpoint-IsReplayable db r id step status payload
  perform-IsReplayable (Call.rollback id reason t a) db h r = absurd h
  perform-IsReplayable (Call.coordinate id reason trigger t a actions) db h r = absurd h

  pub serve-IsReplayable :
      (cs : List Call) (db : Db) → AllTold cs → IsReplayable db → IsReplayable (serve str cs db)
  unfolding serve
  serve-IsReplayable [] db h r = r
  serve-IsReplayable (c ∷ cs) db h r =
      serve-IsReplayable cs (perform str c db) h.1 (perform-IsReplayable c db h.0 r)

same_status_refl : (s : WorkflowStatus) → same_status s s ≡ true
same_status_refl s = ground arith

same_step-as_value : (s : Option String) → same_step s (as_value s) ≡ true
same_step-as_value none = refl
same_step-as_value (some s) = (eq_iff s s).1 refl

pub empty-IsReplayable : IsReplayable empty_db
unfolding get_by_workflow
empty-IsReplayable = record { known = λ id w h. cc; unknown = λ id h. refl }

-- The report of `consistency_check` on a workflow whose events tell its row.
abbrev pub agreement : Workflow → ConsistencyResult
agreement w = record {
  persisted_status = w.workflow_status;
  derived_status = w.workflow_status;
  persisted_step = w.current_step;
  derived_step = as_value w.current_step;
  is_consistent = true;
}

pub replay-derive :
    (db : Db) (id : ℕ) (w : Workflow)
    → get_by_id id db ≡ some w
    → replay id db ≡ (
      returned (record {
        replayed_events = length (get_by_workflow id db);
        final = derive initial (get_by_workflow id db);
      }),
      db,
    )
unfolding replay
replay-derive db id w h = rw h

pub consistency_check-agreement :
    (db : Db) (id : ℕ) (w : Workflow)
    → IsReplayable db
    → get_by_id id db ≡ some w
    → consistency_check id db ≡ (returned (agreement w), db)
unfolding consistency_check
consistency_check-agreement db id w r h = rw h (
    rw (replay-derive db id w h) (
      rw (r.known id w (get_by_id-row_of id db w h))
        (rw (same_status_refl w.workflow_status, same_step-as_value w.current_step))))

-- After any sequence of calls on empty tables that holds no rollback, and whose advances name a
-- step that is not empty and carry no `step` of their own in their payload, the consistency check
-- of every workflow that is found reports agreement: the replayed status and step are those of
-- its row.
pub consistency_check-serve :
    (str : ℕ → String) (cs : List Call) (id : ℕ) (w : Workflow)
    → AllTold cs
    → get_by_id id (serve str cs empty_db) ≡ some w
    → consistency_check id (serve str cs empty_db) ≡ (returned (agreement w), serve str cs empty_db)
consistency_check-serve str cs id w told found =
    consistency_check-agreement (serve str cs empty_db) id w
      (serve-IsReplayable str cs empty_db told empty-IsReplayable) found
