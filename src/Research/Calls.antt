-- ===== src/Research/Calls.antt =====
-- Sequences of calls of backend/research/job.py and backend/research/task.py.
pub mod Balance
pub mod Kept
pub mod Retries
pub mod Retried
pub mod Accounts
use the_dashboard.Common.{ℕ, String, Option, List, [], ◌∷◌}
use the_dashboard.Workflow.Database.{Dict}
use the_dashboard.Research.Tables.{Store}
use the_dashboard.Research.Job.Reach
use the_dashboard.Research.Job.Reach.{JobCall}
use the_dashboard.Research.Task
use the_dashboard.Research.Task.{ResearchTaskSpec}

pub data ResearchCall : Type 0 where
  of_job : JobCall → ResearchCall
  create : (task_id now : ℕ) → ResearchTaskSpec → ResearchCall
  start retry : (task_id : ℕ) (actor_id : Option ℕ) (now : ℕ) → ResearchCall
  complete :
      (task_id : ℕ) (output_payload : Dict) (tokens_input tokens_output : ℕ) (actor_id : Option ℕ)
      (now : ℕ)
      → ResearchCall
  fail : (task_id : ℕ) (error : String) (actor_id : Option ℕ) → ResearchCall
  cancel skip : (task_id : ℕ) (actor_id : Option ℕ) → ResearchCall

unfoldable pub perform : ResearchCall → Store → Store
perform (ResearchCall.of_job c) s = Reach.perform c s
perform (ResearchCall.create id now spec) s = (Task.create id now spec s).1
perform (ResearchCall.start id actor now) s = (Task.start id actor now s).1
perform (ResearchCall.retry id actor now) s = (Task.retry id actor now s).1
perform (ResearchCall.complete id output tokens_in tokens_out actor now) s =
    (Task.complete id output tokens_in tokens_out actor now s).1
perform (ResearchCall.fail id error actor) s = (Task.fail id error actor s).1
perform (ResearchCall.cancel id actor) s = (Task.cancel id actor s).1
perform (ResearchCall.skip id actor) s = (Task.skip id actor s).1

unfoldable pub serve : List ResearchCall → Store → Store
serve [] s = s
serve (c ∷ cs) s = serve cs (perform c s)
