-- ===== src/Ai/Execution/Tables.antt =====
-- The rows and records of backend/ai/lifecycle.py: models/ai_execution.py, ai/contracts.py and
-- ai/context.py.
use the_dashboard.Common.{ℕ, String, Bool, true, false, Option, List}
use the_dashboard.Workflow.Database.{Dict, Approval}

pub data ExecutionStatus : Type 0 where
  pending running completed failed cancelled awaiting_approval : ExecutionStatus

-- `==` of the enumeration
abbrev pub same_status : ExecutionStatus → ExecutionStatus → Bool
same_status pending pending = true
same_status running running = true
same_status completed completed = true
same_status failed failed = true
same_status cancelled cancelled = true
same_status awaiting_approval awaiting_approval = true
same_status _ _ = false

-- `_TERMINAL`
abbrev pub is_terminal : ExecutionStatus → Bool
is_terminal completed = true
is_terminal cancelled = true
is_terminal _ = false

pub data TaskType : Type 0 where
  inference extraction scoring tool_call classification : TaskType

pub data ProviderType : Type 0 where
  anthropic openai bedrock noop : ProviderType

pub record AiTaskInput : Type 0 where
  pub task_type : TaskType
  pub payload : Dict
  pub provider : ProviderType
  pub model_name : String

pub record AiExecutionBounds : Type 0 where
  pub token_budget : ℕ
  pub timeout_seconds : ℕ
  pub max_attempts : ℕ

pub record AiExecutionContext : Type 0 where
  pub execution_key : String
  pub task_input : AiTaskInput
  pub bounds : AiExecutionBounds
  pub workflow_id : Option ℕ
  pub correlation_id : Option String
  pub actor_id : Option ℕ
  pub checkpoint_state : Option Dict

pub record AiExecution : Type 0 where
  pub id : ℕ
  pub execution_key : String
  pub task_type : TaskType
  pub provider : ProviderType
  pub model_name : String
  pub status : ExecutionStatus
  pub workflow_id : Option ℕ
  pub correlation_id : Option String
  pub input_payload : Dict
  pub output_payload : Option Dict
  pub token_budget : ℕ
  pub tokens_used : Option ℕ
  pub timeout_seconds : ℕ
  pub attempt : ℕ
  pub max_attempts : ℕ
  pub started_at : Option ℕ
  pub completed_at : Option ℕ
  pub cancelled_at : Option ℕ
  pub cancel_reason : Option String
  pub error : Option String
  pub checkpoint_state : Option Dict
  pub requires_approval : Bool
  pub approval_id : Option ℕ
  pub actor_id : Option ℕ

pub record AiExecutionResult : Type 0 where
  pub execution_id : ℕ
  pub execution_key : String
  pub status : ExecutionStatus
  pub output : Option Dict
  pub tokens_used : Option ℕ
  pub attempt : ℕ
  pub error : Option String
  pub checkpoint_state : Option Dict

-- A constructor is an event type with its payload, the identifier of the execution left to the event.
pub data Notice : Type 0 where
  created :
      (key : String)
      → TaskType
      → ProviderType
      → (model_name : String) → (workflow_id : Option ℕ) → Notice
  started : (attempt : ℕ) (model_name : String) → Notice
  finished : (tokens_used attempt : ℕ) → Notice
  gave_up : (error : String) (attempt : ℕ) → Notice
  called_off : (reason : String) → Notice
  checkpointed : (checkpoint_keys : List String) → Notice
  approval_required : (approval_id : ℕ) → Notice
  retry_scheduled : (attempt max_attempts : ℕ) (error : String) → Notice
  resumed : Notice

pub record AiEvent : Type 0 where
  pub execution_id : ℕ
  pub body : Notice
  pub correlation_id : Option String

-- The tables: executions, the approvals of the workflows, and the domain events of the channel.
pub record Store : Type 0 where
  pub executions : List AiExecution
  pub approvals : List Approval
  pub events : List AiEvent

pub data AiError : Type 0 where
  not_found : (execution_id : ℕ) → AiError
  wrong_state : ExecutionStatus → AiError
  no_workflow : (tool_id : String) → AiError
  approval_not_found not_resolvable : (approval_id : ℕ) → AiError
  integrity_error : AiError
