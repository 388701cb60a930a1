-- ===== src/Workflow/RetryCoordinator.antt =====
-- backend/workflows/retry_coordinator.py: the retries of a workflow, which are kept as workflow
-- events. `now` is the time that a method reads. The proofs are in the modules below this one.
pub mod Attempts
pub mod Limit
pub mod Due
use the_dashboard.Common.{
  ℕ, String, Bool, true, false, not, ◌||◌, Option, none, some, List, [], ◌∷◌, ◌++◌, ◌+◌, ◌-◌, ◌*◌,
  ◌^◌, ◌==◌, leb, ltb, min, pure, raise, gets, or_raise, ◌>>=◌, ◌>>◌, Outcome, returned, raised,
  nat_elem, collect, find_last, after_seconds, if◌then◌else◌,
}
use the_dashboard.Workflow.Status.{failed, same_status}
use the_dashboard.Workflow.Database.{
  system, Workflow, WorkflowEvent, Happening, retry_scheduled, retry_attempted, retry_exhausted,
  dead_letter, retry_announced, dead_letter_announced, Db, Session, retry_exhausted_error,
  assertion_error, get_by_id, get_by_id_or_raise, append_event, emit,
}
use the_dashboard.Workflow.Retries.{
  RetryPolicy, default_policy, RetryState, fresh_state, RetryExhausted, record_failure,
}
use the_dashboard.Workflow.DeadLetter.{DeadLetterRecord, newest_first, mark}

pub record ScheduledRetry : Type 0 where
  pub workflow_id : ℕ
  pub attempt : ℕ
  pub next_retry_at : ℕ
  pub last_error : String

-- The rows of the events `workflow.retry.scheduled`, with their payload.
pub record RetryRow : Type 0 where
  pub workflow_id : ℕ
  pub attempt : ℕ
  pub next_retry_at : Option ℕ
  pub last_error : String

abbrev pub row_of_event : WorkflowEvent → Option RetryRow
row_of_event e = elim e.body [
  | retry_scheduled attempt next_retry_at last_error ↦ some (record {
    workflow_id = e.workflow_id;
    attempt = attempt;
    next_retry_at = next_retry_at;
    last_error = last_error;
  })
  | _ ↦ none
]

abbrev pub retry_rows : List WorkflowEvent → List RetryRow
retry_rows = collect row_of_event

abbrev pub state_of : Option RetryRow → RetryState
state_of none = fresh_state
state_of (some r) = record {
  attempt = r.attempt;
  last_failed_at = none;
  last_error = r.last_error;
  next_retry_at = none;
}

abbrev pub latest_row : (workflow_id : ℕ) → Db → Option RetryRow
latest_row workflow_id db = find_last (λ r. r.workflow_id == workflow_id) (retry_rows db.events)

-- `RetryCoordinator._get_current_state`
unfoldable pub get_current_state : (workflow_id : ℕ) → Db → RetryState
get_current_state workflow_id db = state_of (latest_row workflow_id db)

-- `RetryCoordinator._handle_exhausted`
unfoldable pub handle_exhausted :
    (workflow_id : ℕ) (error : String) (attempt now : ℕ) → Session DeadLetterRecord
unfolding append_event
handle_exhausted workflow_id error attempt now = do
  wf ← get_by_id_or_raise workflow_id
  append_event workflow_id (retry_exhausted attempt error) system none wf.correlation_id
  mark workflow_id "retry_exhausted" attempt error now

abbrev pub policy_or_default : Option RetryPolicy → RetryPolicy
policy_or_default none = default_policy
policy_or_default (some policy) = policy

-- What `schedule` does with a state that has a retry left.
unfoldable pub record_retry :
    (workflow_id : ℕ) (error : String) → RetryState → Session ScheduledRetry
unfolding append_event emit
record_retry workflow_id error new_state = do
  wf ← get_by_id_or_raise workflow_id
  append_event workflow_id (retry_scheduled new_state.attempt new_state.next_retry_at error) system
      none wf.correlation_id
  emit (retry_announced workflow_id new_state.attempt new_state.next_retry_at)
      (some wf.correlation_id)
  next_retry_at ← or_raise new_state.next_retry_at assertion_error
  pure (record {
    workflow_id = workflow_id;
    attempt = new_state.attempt;
    next_retry_at = next_retry_at;
    last_error = error;
  })

-- The two ways on from `record_failure`.
unfoldable pub after_failure :
    (workflow_id : ℕ) (error : String)
    → RetryState
    → (now : ℕ) → Outcome RetryExhausted RetryState
    → Session ScheduledRetry
after_failure workflow_id error current_state now (raised e) =
    handle_exhausted workflow_id error (current_state.attempt + 1) now >>= λ _.
    raise (retry_exhausted_error e.attempt e.max_retries)
after_failure workflow_id error current_state now (returned new_state) =
    record_retry workflow_id error new_state

-- `RetryCoordinator.schedule`
unfoldable pub schedule :
    (workflow_id : ℕ) (error : String) → Option RetryPolicy → (now : ℕ) → Session ScheduledRetry
schedule workflow_id error policy now = do
  current_state ← gets (get_current_state workflow_id)
  after_failure workflow_id error current_state now
      (record_failure current_state (policy_or_default policy) error now)

-- `ORDER BY workflow_id` of rows that come newest first: the sort is stable.
abbrev pub insert_row : RetryRow → List RetryRow → List RetryRow
insert_row r [] = r ∷ []
insert_row r (q ∷ rows) =
    if leb r.workflow_id q.workflow_id then r ∷ q ∷ rows else q ∷ insert_row r rows

abbrev pub sort_rows : List RetryRow → List RetryRow
sort_rows [] = []
sort_rows (r ∷ rows) = insert_row r (sort_rows rows)

-- The loop that keeps the first row of each workflow.
unfoldable pub keep_latest : (seen : List ℕ) → List RetryRow → List RetryRow
keep_latest seen [] = []
keep_latest seen (r ∷ rows) =
    let old = nat_elem r.workflow_id seen in
    let rest = keep_latest (if old then seen else r.workflow_id ∷ seen) rows in
    if old then rest else r ∷ rest

abbrev pub has_failed : Option Workflow → Bool
has_failed none = false
has_failed (some wf) = same_status wf.workflow_status failed

abbrev pub due_at : (cutoff : ℕ) (failed_now : Bool) → RetryRow → Option ℕ → Option ScheduledRetry
due_at cutoff failed_now r none = none
due_at cutoff failed_now r (some next_retry_at) =
    if ltb cutoff next_retry_at || not failed_now
    then none
    else some (record {
      workflow_id = r.workflow_id;
      attempt = r.attempt;
      next_retry_at = next_retry_at;
      last_error = r.last_error;
    })

-- The body of the second loop.
abbrev pub due_of : (cutoff : ℕ) → Db → RetryRow → Option ScheduledRetry
due_of cutoff db r = due_at cutoff (has_failed (get_by_id r.workflow_id db)) r r.next_retry_at

-- `RetryCoordinator.get_due`
unfoldable pub get_due : (cutoff : ℕ) → Db → List ScheduledRetry
unfolding keep_latest
get_due cutoff db =
    collect (due_of cutoff db) (keep_latest [] (sort_rows (newest_first (retry_rows db.events))))

-- `RetryCoordinator.mark_attempted`
unfoldable pub mark_attempted : (workflow_id now : ℕ) → Session (Unit {0})
unfolding append_event
mark_attempted workflow_id now = do
  wf ← get_by_id_or_raise workflow_id
  append_event workflow_id (retry_attempted now) system none wf.correlation_id
