-- ===== src/Workflow/Calls.antt =====
-- Sequences of calls of the runtimes that write workflows. The proofs are in the modules below.
pub mod Replayed
pub mod Keeps
pub mod Final
use the_dashboard.Common.{ℕ, String, Option, List, [], ◌∷◌}
use the_dashboard.Workflow.Status.{WorkflowStatus}
use the_dashboard.Workflow.Database.{Dict, WorkflowType, ActorType, CompensatingAction, Db}
use the_dashboard.Workflow.Runtime
use the_dashboard.Workflow.Recovery
use the_dashboard.Workflow.Rollback

pub data Call : Type 0 where
  start : (id corr_id : ℕ) → WorkflowType → (lead_id by : Option ℕ) → ActorType → Call
  advance : (id : ℕ) (step : String) → Dict → ActorType → Option ℕ → Call
  pause fail cancel : (id : ℕ) (reason : String) → ActorType → Option ℕ → Call
  resume : (id : ℕ) → ActorType → Option ℕ → Call
  complete : (id : ℕ) → Dict → ActorType → Option ℕ → Call
  resume_failed resume_from_checkpoint : (id : ℕ) → Option ℕ → Call
  set_checkpoint : (id : ℕ) (step : String) → WorkflowStatus → Dict → Call
  rollback : (id : ℕ) (reason : String) → ActorType → Option ℕ → Call
  coordinate :
      (id : ℕ) (reason trigger : String) → ActorType → Option ℕ → List CompensatingAction → Call

-- The tables after a call; `str` gives the text of an identifier.
unfoldable pub perform : (str : ℕ → String) → Call → Db → Db
perform str (Call.start id corr type lead by t) db = (Runtime.start id corr type lead by t db).1
perform str (Call.advance id step payload t a) db = (Runtime.advance str id step payload t a db).1
perform str (Call.pause id reason t a) db = (Runtime.pause id reason t a db).1
perform str (Call.resume id t a) db = (Runtime.resume id t a db).1
perform str (Call.complete id payload t a) db = (Runtime.complete id payload t a db).1
perform str (Call.fail id reason t a) db = (Runtime.fail id reason t a db).1
perform str (Call.cancel id reason t a) db = (Runtime.cancel id reason t a db).1
perform str (Call.resume_failed id a) db = (Recovery.resume_failed id a db).1
perform str (Call.resume_from_checkpoint id a) db = (Recovery.resume_from_checkpoint id a db).1
perform str (Call.set_checkpoint id step status payload) db =
    (Recovery.set_checkpoint id step status payload db).1
perform str (Call.rollback id reason t a) db = (Rollback.rollback id reason t a db).1
perform str (Call.coordinate id reason trigger t a actions) db =
    (Rollback.coordinate id reason trigger t a actions db).1

unfoldable pub serve : (str : ℕ → String) → List Call → Db → Db
serve str [] db = db
serve str (c ∷ cs) db = serve str cs (perform str c db)
