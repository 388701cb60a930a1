-- ===== src/Research/Task.antt =====
-- backend/research/task.py: the lifecycle of a research task. A method returns the row itself, of
-- which `_to_record` makes a record. `now` is the time that a method reads. The proofs are in the
-- modules below this one.
use the_dashboard.Common.{
  ℕ, suc, String, Bool, true, false, not, ◌||◌, Option, none, some, List, [], ◌∷◌, ◌++◌, ◌+◌, ◌==◌,
  leb, pure, gets, modify, raise_if, or_raise, ◌>>=◌, ◌>>◌, str_eq, any_of, find_by, get_row,
  put_row, map, if◌then◌else◌,
}
use the_dashboard.Workflow.Database.{Dict}
use the_dashboard.Research.Tables.{
  ResearchJob, TaskStatus, ResearchTask, ResearchEventBody, task_created, task_started,
  task_cancelled, task_skipped, task_completed, task_failed, task_retried, Store, Session,
  task_not_found, invalid_task_transition, retries_exhausted, integrity_error, append_event,
}
use the_dashboard.Research.Tables.TaskStatus.{
  pending, running, completed, failed, cancelled, skipped, blocked,
}

-- `==` of the enumeration
abbrev pub same_status : TaskStatus → TaskStatus → Bool
same_status pending pending = true
same_status running running = true
same_status completed completed = true
same_status failed failed = true
same_status cancelled cancelled = true
same_status skipped skipped = true
same_status blocked blocked = true
same_status _ _ = false

-- `_VALID_TRANSITIONS`
unfoldable pub valid_transitions : TaskStatus → List TaskStatus
valid_transitions pending = running ∷ cancelled ∷ skipped ∷ blocked ∷ []
valid_transitions blocked = pending ∷ cancelled ∷ []
valid_transitions running = completed ∷ failed ∷ cancelled ∷ []
valid_transitions failed = running ∷ cancelled ∷ []
valid_transitions completed = []
valid_transitions cancelled = []
valid_transitions skipped = []

-- The test of `_assert_transition`
unfoldable pub is_allowed : (current target : TaskStatus) → Bool
unfolding valid_transitions
is_allowed current target = any_of (same_status target) (valid_transitions current)

-- research/contracts.py
pub record ResearchTaskSpec : Type 0 where
  pub job_id : ℕ
  pub task_index : ℕ
  pub task_type : String
  pub input_payload : Dict
  pub depth : ℕ
  pub max_retries : ℕ
  pub task_key : Option String

-- The row of a new task.
abbrev pub new_task : (task_id now : ℕ) → ResearchTaskSpec → ResearchTask
new_task task_id now spec = record {
  id = task_id;
  job_id = spec.job_id;
  task_index = spec.task_index;
  status = pending;
  task_key = spec.task_key;
  task_type = spec.task_type;
  depth = spec.depth;
  retry_count = 0;
  max_retries = spec.max_retries;
  input_payload = spec.input_payload;
  output_payload = none;
  error = none;
  tokens_input = 0;
  tokens_output = 0;
  started_at = none;
  completed_at = none;
  created_at = now;
}

abbrev pub same_key : Option String → Option String → Bool
same_key (some a) (some b) = str_eq a b
same_key _ _ = false

-- What the database refuses to insert: the identifier and a key that is not null are unique, and
-- the job has to exist.
abbrev pub clashes : ResearchTask → Store → Bool
clashes task s =
    any_of (λ t. t.id == task.id || same_key t.task_key task.task_key) s.tasks
    || not (any_of (λ j. j.id == task.job_id) s.jobs)

unfoldable pub insert_task : ResearchTask → Session ResearchTask
insert_task task = do
  clash ← gets (clashes task)
  raise_if clash integrity_error
  modify (λ s. record s { tasks = s.tasks ++ task ∷ [] })
  append_event (task_created task.task_index task.task_type) task.job_id (some task.id) none
  pure task

-- The lookup of a key, which an empty one skips.
abbrev pub find_key : Option String → List ResearchTask → Option ResearchTask
find_key none tasks = none
find_key (some key) tasks =
    if str_eq key "" then none else find_by (λ t. same_key t.task_key (some key)) tasks

abbrev pub or_insert : Option ResearchTask → Session ResearchTask → Session ResearchTask
or_insert none make = make
or_insert (some existing) make = pure existing

-- `ResearchTaskRuntime.create`; `task_id` is the identifier that it draws.
unfoldable pub create : (task_id now : ℕ) → ResearchTaskSpec → Session ResearchTask
unfolding insert_task
create task_id now spec = do
  existing ← gets (λ s. find_key spec.task_key s.tasks)
  or_insert existing (insert_task (new_task task_id now spec))

-- `get_for_update`, and the exception when there is no such task
unfoldable pub get_for_update_or_raise : (task_id : ℕ) → Session ResearchTask
get_for_update_or_raise task_id = do
  found ← gets (λ s. get_row (λ t. t.id) task_id s.tasks)
  or_raise found (task_not_found task_id)

-- `_assert_transition`
abbrev pub assert_transition : (current target : TaskStatus) → Session (Unit {0})
assert_transition current target =
    raise_if (not (is_allowed current target)) (invalid_task_transition current target)

-- The flush of a changed row.
unfoldable pub save : ResearchTask → Session (Unit {0})
save task = modify (λ s. record s { tasks = put_row (λ t. t.id) task s.tasks })

-- The flush of a changed row, and its event.
unfoldable pub write :
    ResearchTask → ResearchEventBody → (actor_id : Option ℕ) → Session ResearchTask
unfolding save
write task body actor_id = do
  save task
  append_event body task.job_id (some task.id) actor_id
  pure task

-- The row of a task that may move to a status.
unfoldable pub require : (task_id : ℕ) (target : TaskStatus) → Session ResearchTask
unfolding get_for_update_or_raise
require task_id target = do
  row ← get_for_update_or_raise task_id
  assert_transition row.status target
  pure row

-- `ResearchTaskRuntime.start`
unfoldable pub start : (task_id : ℕ) (actor_id : Option ℕ) (now : ℕ) → Session ResearchTask
start task_id actor_id now = do
  row ← require task_id running
  write (record row { status = running; started_at = some now }) (task_started row.task_index)
      actor_id

-- `UPDATE research_jobs SET tokens_used = tokens_used + :delta, completed_task_count =
-- completed_task_count + 1 WHERE id = :job_id`
abbrev pub count_up : (job_id delta : ℕ) → ResearchJob → ResearchJob
count_up job_id delta j =
    if j.id == job_id
    then record j {
      tokens_used = j.tokens_used + delta;
      completed_task_count = j.completed_task_count + 1;
    }
    else j

unfoldable pub update_jobs : (job_id delta : ℕ) → Session (Unit {0})
update_jobs job_id delta = modify (λ s. record s { jobs = map (count_up job_id delta) s.jobs })

-- `ResearchTaskRuntime.complete`
unfoldable pub complete :
    (task_id : ℕ) (output_payload : Dict) (tokens_input tokens_output : ℕ) (actor_id : Option ℕ)
    (now : ℕ)
    → Session ResearchTask
unfolding update_jobs save
complete task_id output_payload tokens_input tokens_output actor_id now = do
  row ← require task_id completed
  let done : ResearchTask = record row {
    status = completed;
    output_payload = some output_payload;
    tokens_input = tokens_input;
    tokens_output = tokens_output;
    completed_at = some now;
  }
  save done
  update_jobs row.job_id (tokens_input + tokens_output)
  append_event (task_completed row.task_index tokens_input tokens_output) row.job_id (some task_id)
      actor_id
  pure done

-- `ResearchTaskRuntime.fail`
unfoldable pub fail : (task_id : ℕ) (error : String) (actor_id : Option ℕ) → Session ResearchTask
fail task_id error actor_id = do
  row ← require task_id failed
  write (record row { status = failed; error = some error }) (task_failed error row.task_index)
      actor_id

-- `ResearchTaskRuntime.retry`
unfoldable pub retry : (task_id : ℕ) (actor_id : Option ℕ) (now : ℕ) → Session ResearchTask
unfolding get_for_update_or_raise
retry task_id actor_id now = do
  row ← get_for_update_or_raise task_id
  raise_if (leb row.max_retries row.retry_count) (retries_exhausted task_id row.max_retries)
  assert_transition row.status running
  write
      (record row {
        status = running;
        retry_count = suc row.retry_count;
        error = none;
        started_at = some now;
      })
      (task_retried (suc row.retry_count) row.max_retries) actor_id

-- `ResearchTaskRuntime.cancel`
unfoldable pub cancel : (task_id : ℕ) (actor_id : Option ℕ) → Session ResearchTask
cancel task_id actor_id = do
  row ← require task_id cancelled
  write (record row { status = cancelled }) (task_cancelled row.task_index) actor_id

-- `ResearchTaskRuntime.skip`
unfoldable pub skip : (task_id : ℕ) (actor_id : Option ℕ) → Session ResearchTask
skip task_id actor_id = do
  row ← require task_id skipped
  write (record row { status = skipped }) (task_skipped row.task_index) actor_id
