-- ===== src/Tests/Ai.antt =====
-- Runs of the executions (backend/ai/lifecycle.py) and their approval gate (backend/ai/gate.py) on
-- concrete inputs.
use the_dashboard.Common.{true, false, none, some, List, [], ◌∷◌, ◌≤◌, ◌≡◌, refl, arith, length}
use the_dashboard.Workflow.Database.{RiskLevel}
use the_dashboard.Ai.Registry.{AiToolDefinition, register}
use the_dashboard.Ai.Execution.{
  pending, failed, inference, anthropic, AiExecutionContext, AiExecution, Store, new_execution,
  limit, create, start, fail, write, require, get_for_update_or_raise, mark_awaiting_approval,
  resume_from_approval,
}
use the_dashboard.Ai.Gate.{check_tool, resolve, ask, get_approval_or_raise}
use the_dashboard.Ai.Calls.{AiCall, perform, serve}
use the_dashboard.Ai.Calls.Counted.{stored, IsCounted}
use the_dashboard.Ai.Calls.Attempts.{no_tables, serve-IsCounted}
use the_dashboard.Ai.Calls.Progress.{failing, serve-failing, finishing, IsFinished, serve-finishing}

abbrev context : AiExecutionContext
context = record {
  execution_key = "score-7";
  task_input = record {
    task_type = inference;
    payload = [];
    provider = anthropic;
    model_name = "model";
  };
  bounds = record { token_budget = 4096; timeout_seconds = 30; max_attempts = 2 };
  workflow_id = some 5;
  correlation_id = none;
  actor_id = none;
  checkpoint_state = none;
}

abbrev row : AiExecution
row = new_execution 1 context false

abbrev tables : Store
tables = record { executions = row ∷ []; approvals = []; events = [] }

abbrev sms : AiToolDefinition
sms = record {
  tool_id = "send_sms";
  name = "Send";
  description = "";
  input_schema = [];
  requires_approval = true;
  approval_type = none;
  is_sandbox_safe = false;
}

abbrev calls : List AiCall
calls =
    AiCall.create 1 context false
    ∷ AiCall.start 1 10
    ∷ AiCall.check_tool (register sms (λ id. none)) 20 1 "send_sms" (some 5) none RiskLevel.low
    ∷ AiCall.resolve 1 20 true none "" 11
    ∷ AiCall.fail 1 "timeout"
    ∷ []

-- After the approval the execution runs on, and after the failure it waits for its second attempt.
abbrev after_calls : AiExecution
after_calls = record row { attempt = 1; error = some "timeout"; approval_id = some 20 }

stored-calls : stored 1 (serve calls no_tables).executions ≡ some after_calls
unfolding serve perform create start fail write require get_for_update_or_raise
    mark_awaiting_approval resume_from_approval check_tool resolve ask get_approval_or_raise
    register
stored-calls = refl

serve-IsCounted_example : IsCounted after_calls (serve calls no_tables).events
serve-IsCounted_example = serve-IsCounted calls 1 after_calls stored-calls

serve-failing_example :
    (v : AiExecution) × (stored 1 (serve (failing 2 1 10 "timeout") tables).executions ≡ some v)
    × (v.status ≡ failed)
    × (v.attempt ≡ limit 2)
serve-failing_example = serve-failing 1 10 "timeout" 1 tables row refl refl (omega arith)

serve-finishing_example :
    IsFinished 1 10 99 [] (serve (finishing pending 1 10 99 []) tables).executions
    × (length (finishing pending 1 10 99 []) ≤ 2)
serve-finishing_example = serve-finishing 1 10 99 [] tables row refl refl
