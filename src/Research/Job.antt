-- ===== src/Research/Job.antt =====
-- backend/research/job.py: the lifecycle of a research job, with models/research_job.py and the
-- repositories of research jobs and events. A method returns the row itself, of which `_to_record`
-- makes a record. `now` is the time that a method reads. The proofs are in the modules below this one.
pub mod Life
pub mod Reach
pub mod Alike
use the_dashboard.Common.{
  ℕ, String, Bool, true, false, not, ◌||◌, Option, none, some, List, [], ◌∷◌, ◌++◌, ◌==◌, Exec,
  pure, gets, modify, raise_if, or_raise, ◌>>=◌, ◌>>◌, str_eq, any_of, is_some, find_by, get_row,
  put_row, if◌then◌else◌,
}
use the_dashboard.Workflow.Database.{Dict}
use the_dashboard.Research.Tables.{
  JobStatus, queued, running, paused, completed, failed, cancelled, same_status, ResearchJob,
  ResearchEventBody, job_created, job_started, job_paused, job_resumed, job_completed,
  job_checkpointed, job_failed, job_cancelled, Store, Session, not_found, invalid_transition,
  integrity_error, append_event,
}

-- `_VALID_TRANSITIONS`
unfoldable pub valid_transitions : JobStatus → List JobStatus
valid_transitions queued = running ∷ cancelled ∷ []
valid_transitions running = paused ∷ completed ∷ failed ∷ cancelled ∷ []
valid_transitions paused = running ∷ cancelled ∷ []
valid_transitions completed = []
valid_transitions failed = []
valid_transitions cancelled = []

unfoldable pub is_allowed : (current target : JobStatus) → Bool
unfolding valid_transitions
is_allowed current target = any_of (same_status target) (valid_transitions current)

-- research/contracts.py
pub record ResearchJobSpec : Type 0 where
  pub job_key : String
  pub token_budget : ℕ
  pub max_depth : ℕ
  pub sophia_session_id : Option ℕ
  pub workflow_id : Option ℕ
  pub initiated_by : Option ℕ
  pub plan_id : Option ℕ
  pub job_metadata : Dict

-- `get_for_update`, and the exception when there is no such job
unfoldable pub get_for_update_or_raise : (job_id : ℕ) → Session ResearchJob
get_for_update_or_raise job_id = do
  found ← gets (λ s. get_row (λ j. j.id) job_id s.jobs)
  or_raise found (not_found job_id)

-- The row of a new job.
abbrev pub new_job : (job_id now : ℕ) → ResearchJobSpec → ResearchJob
new_job job_id now spec = record {
  id = job_id;
  job_key = spec.job_key;
  status = queued;
  token_budget = spec.token_budget;
  tokens_used = 0;
  task_count = 0;
  completed_task_count = 0;
  max_depth = spec.max_depth;
  current_depth = 0;
  checkpoint_state = none;
  job_metadata = spec.job_metadata;
  created_at = now;
  sophia_session_id = spec.sophia_session_id;
  workflow_id = spec.workflow_id;
  initiated_by = spec.initiated_by;
  plan_id = spec.plan_id;
  cancel_reason = none;
  error = none;
  started_at = none;
  paused_at = none;
  completed_at = none;
  cancelled_at = none;
}

-- What the database refuses to insert: the identifier and the key are unique.
abbrev pub clashes : ResearchJob → Store → Bool
clashes job s = any_of (λ j. j.id == job.id || str_eq j.job_key job.job_key) s.jobs

abbrev pub insert_new : ResearchJob → Session ResearchJob
insert_new job = do
  clash ← gets (clashes job)
  raise_if clash integrity_error
  modify (λ s. record s { jobs = s.jobs ++ job ∷ [] })
  append_event (job_created job.job_key job.token_budget job.max_depth) job.id none job.initiated_by
  pure job

abbrev pub or_insert : Option ResearchJob → Session ResearchJob → Session ResearchJob
or_insert none make = make
or_insert (some existing) make = pure existing

-- `ResearchJobRuntime.create`; `job_id` is the identifier that it draws.
unfoldable pub create : (job_id now : ℕ) → ResearchJobSpec → Session ResearchJob
create job_id now spec = do
  existing ← gets (λ s. find_by (λ j. str_eq j.job_key spec.job_key) s.jobs)
  or_insert existing (insert_new (new_job job_id now spec))

-- The write of a changed row and its event.
unfoldable pub write : ResearchJob → ResearchEventBody → (actor_id : Option ℕ) → Session ResearchJob
write job body actor_id = do
  modify (λ s. record s { jobs = put_row (λ j. j.id) job s.jobs })
  append_event body job.id none actor_id
  pure job

-- The row of a job that may move to a status.
unfoldable pub require : (job_id : ℕ) (target : JobStatus) → Session ResearchJob
require job_id target = do
  row ← get_for_update_or_raise job_id
  raise_if (not (is_allowed row.status target)) (invalid_transition row.status target)
  pure row

-- `ResearchJobRuntime.start`
unfoldable pub start : (job_id : ℕ) (actor_id : Option ℕ) (now : ℕ) → Session ResearchJob
start job_id actor_id now = do
  row ← require job_id running
  write (record row { status = running; started_at = some now }) (job_started now) actor_id

abbrev pub state_or : Option Dict → Option Dict → Option Dict
state_or none old = old
state_or (some state) old = some state

-- `ResearchJobRuntime.pause`
unfoldable pub pause :
    (job_id : ℕ) (checkpoint_state : Option Dict) (actor_id : Option ℕ) (now : ℕ)
    → Session ResearchJob
pause job_id checkpoint_state actor_id now = do
  row ← require job_id paused
  write
      (record row {
        status = paused;
        paused_at = some now;
        checkpoint_state = state_or checkpoint_state row.checkpoint_state;
      })
      (job_paused (is_some checkpoint_state)) actor_id

-- `ResearchJobRuntime.resume`
unfoldable pub resume : (job_id : ℕ) (actor_id : Option ℕ) → Session ResearchJob
resume job_id actor_id = do
  row ← require job_id running
  write (record row { status = running; paused_at = none }) job_resumed actor_id

-- `ResearchJobRuntime.complete`
unfoldable pub complete : (job_id : ℕ) (actor_id : Option ℕ) (now : ℕ) → Session ResearchJob
complete job_id actor_id now = do
  row ← require job_id completed
  write (record row { status = completed; completed_at = some now })
      (job_completed row.task_count row.tokens_used) actor_id

-- `ResearchJobRuntime.fail`
unfoldable pub fail : (job_id : ℕ) (error : String) (actor_id : Option ℕ) → Session ResearchJob
fail job_id error actor_id = do
  row ← require job_id failed
  write (record row { status = failed; error = some error }) (job_failed error) actor_id

-- `ResearchJobRuntime.cancel`
unfoldable pub cancel :
    (job_id : ℕ) (reason : String) (actor_id : Option ℕ) (now : ℕ) → Session ResearchJob
cancel job_id reason actor_id now = do
  row ← require job_id cancelled
  write (record row { status = cancelled; cancel_reason = some reason; cancelled_at = some now })
      (job_cancelled reason) actor_id

-- `ResearchJobRuntime.checkpoint`
unfoldable pub checkpoint :
    (job_id : ℕ) (state_blob : Dict) (actor_id : Option ℕ) → Session ResearchJob
checkpoint job_id state_blob actor_id = do
  row ← get_for_update_or_raise job_id
  write (record row { checkpoint_state = some state_blob })
      (job_checkpointed row.task_count row.tokens_used) actor_id
