-- ===== src/Ai/Execution.antt =====
-- backend/ai/lifecycle.py, with ai/contracts.py, ai/context.py, models/ai_execution.py and its
-- repository: the life of one execution. `now` is the time that a method reads. `attempt` and
-- `max_attempts` are not null in the table.
mod Tables
use the_dashboard.Common.{
  ℕ, zero, suc, String, Bool, true, false, not, ◌||◌, Option, none, some, List, [], ◌∷◌, ◌++◌, ◌==◌,
  ltb, Exec, pure, gets, modify, raise_if, or_raise, ◌>>=◌, ◌>>◌, str_eq, any_of, find_by, get_row,
  put_row, if◌then◌else◌, map,
}
use the_dashboard.Workflow.Database.{Dict, Approval}
pub use Tables.*

abbrev pub Session : Type 0 → Type 0
Session = Exec Store AiError

-- `_to_result`
unfoldable pub to_result : AiExecution → AiExecutionResult
to_result row = record {
  execution_id = row.id;
  execution_key = row.execution_key;
  status = row.status;
  output = row.output_payload;
  tokens_used = row.tokens_used;
  attempt = row.attempt;
  error = row.error;
  checkpoint_state = row.checkpoint_state;
}

-- `AIExecutionRepository.get_for_update_or_raise`
unfoldable pub get_for_update_or_raise : (execution_id : ℕ) → Session AiExecution
get_for_update_or_raise execution_id = do
  found ← gets (λ s. get_row (λ e. e.id) execution_id s.executions)
  or_raise found (not_found execution_id)

-- `event_emitter.emit` on the channel
abbrev pub emit : Notice → AiExecution → Session (Unit {0})
emit body row = modify (λ s. record s {
  events =
      s.events
      ++ record { execution_id = row.id; body = body; correlation_id = row.correlation_id } ∷ [];
})

-- The flush of a changed row, and its event.
unfoldable pub write : AiExecution → Notice → Session AiExecutionResult
write row body = do
  modify (λ s. record s { executions = put_row (λ e. e.id) row s.executions })
  emit body row
  pure (to_result row)

-- The row of an execution that has to be in a status.
unfoldable pub require : (execution_id : ℕ) → ExecutionStatus → Session AiExecution
require execution_id status = do
  row ← get_for_update_or_raise execution_id
  raise_if (not (same_status row.status status)) (wrong_state row.status)
  pure row

-- The row of a new execution.
abbrev pub new_execution : (id : ℕ) → AiExecutionContext → (requires_approval : Bool) → AiExecution
new_execution id context requires_approval = record {
  id = id;
  execution_key = context.execution_key;
  task_type = context.task_input.task_type;
  provider = context.task_input.provider;
  model_name = context.task_input.model_name;
  status = pending;
  workflow_id = context.workflow_id;
  correlation_id = context.correlation_id;
  input_payload = context.task_input.payload;
  output_payload = none;
  token_budget = context.bounds.token_budget;
  tokens_used = none;
  timeout_seconds = context.bounds.timeout_seconds;
  attempt = 0;
  max_attempts = context.bounds.max_attempts;
  started_at = none;
  completed_at = none;
  cancelled_at = none;
  cancel_reason = none;
  error = none;
  checkpoint_state = context.checkpoint_state;
  requires_approval = requires_approval;
  approval_id = none;
  actor_id = context.actor_id;
}

-- What the database refuses to insert: the identifier and the key are unique.
abbrev pub clashes : AiExecution → Store → Bool
clashes row s =
    any_of (λ e. e.id == row.id || str_eq e.execution_key row.execution_key) s.executions

abbrev pub insert_new : AiExecution → Session AiExecutionResult
insert_new row = do
  clash ← gets (clashes row)
  raise_if clash integrity_error
  modify (λ s. record s { executions = s.executions ++ row ∷ [] })
  emit (created row.execution_key row.task_type row.provider row.model_name row.workflow_id) row
  pure (to_result row)

abbrev pub or_insert : Option AiExecution → Session AiExecutionResult → Session AiExecutionResult
or_insert none make = make
or_insert (some existing) make = pure (to_result existing)

-- `AIExecutionRuntime.create`; `id` is the identifier that it draws.
unfoldable pub create :
    (id : ℕ) → AiExecutionContext → (requires_approval : Bool) → Session AiExecutionResult
create id context requires_approval = do
  existing ← gets (λ s. find_by (λ e. str_eq e.execution_key context.execution_key) s.executions)
  or_insert existing (insert_new (new_execution id context requires_approval))

-- `AIExecutionRuntime.start`
unfoldable pub start : (execution_id now : ℕ) → Session AiExecutionResult
start execution_id now = do
  row ← require execution_id pending
  write (record row { status = running; started_at = some now; attempt = suc row.attempt })
      (started (suc row.attempt) row.model_name)

-- `AIExecutionRuntime.complete`
unfoldable pub complete :
    (execution_id : ℕ) (output : Dict) (tokens_used now : ℕ) → Session AiExecutionResult
complete execution_id output tokens_used now = do
  row ← require execution_id running
  write
      (record row {
        status = completed;
        output_payload = some output;
        tokens_used = some tokens_used;
        completed_at = some now;
      })
      (finished tokens_used row.attempt)

-- `row.max_attempts or 1`
abbrev pub limit : ℕ → ℕ
limit zero = 1
limit (suc n) = suc n

-- `AIExecutionRuntime.fail`
unfoldable pub fail : (execution_id : ℕ) (error : String) → Session AiExecutionResult
fail execution_id error = do
  row ← require execution_id running
  if ltb row.attempt (limit row.max_attempts)
      then write (record row { status = pending; error = some error; started_at = none })
          (retry_scheduled row.attempt (limit row.max_attempts) error)
      else write (record row { status = failed; error = some error }) (gave_up error row.attempt)

-- `reason or None`
abbrev pub or_none : String → Option String
or_none reason = if str_eq reason "" then none else some reason

-- `AIExecutionRuntime.cancel`
unfoldable pub cancel : (execution_id : ℕ) (reason : String) (now : ℕ) → Session AiExecutionResult
cancel execution_id reason now = do
  row ← get_for_update_or_raise execution_id
  if is_terminal row.status
      then pure (to_result row)
      else write
          (record row {
            status = cancelled;
            cancelled_at = some now;
            cancel_reason = or_none reason;
          })
          (called_off reason)

-- `AIExecutionRuntime.checkpoint`, which returns nothing.
unfoldable pub checkpoint : (execution_id : ℕ) (state : Dict) → Session (Unit {0})
checkpoint execution_id state = do
  row ← require execution_id running
  saved ← write (record row { checkpoint_state = some state }) (checkpointed (map (λ p. p.0) state))
  pure tt

-- `AIExecutionRuntime.mark_awaiting_approval`
unfoldable pub mark_awaiting_approval : (execution_id approval_id : ℕ) → Session AiExecutionResult
mark_awaiting_approval execution_id approval_id = do
  row ← require execution_id running
  write (record row { status = awaiting_approval; approval_id = some approval_id })
      (approval_required approval_id)

-- `AIExecutionRuntime.resume_from_approval`
unfoldable pub resume_from_approval : (execution_id : ℕ) → Session AiExecutionResult
resume_from_approval execution_id = do
  row ← require execution_id awaiting_approval
  write (record row { status = running }) resumed
