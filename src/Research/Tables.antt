-- ===== src/Research/Tables.antt =====
-- The tables of the research runtimes: models/research_job.py, research_task.py,
-- research_task_dependency.py and research_event.py, with the event repository.
use the_dashboard.Common.{ℕ, String, Bool, true, false, Option, List, [], ◌∷◌, ◌++◌, Exec, modify}
use the_dashboard.Workflow.Database.{Dict}

pub data JobStatus : Type 0 where
  queued running paused completed failed cancelled : JobStatus

-- `==` of the enumeration
abbrev pub same_status : JobStatus → JobStatus → Bool
same_status queued queued = true
same_status running running = true
same_status paused paused = true
same_status completed completed = true
same_status failed failed = true
same_status cancelled cancelled = true
same_status _ _ = false

pub data TaskStatus : Type 0 where
  pending running completed failed cancelled skipped blocked : TaskStatus

pub record ResearchJob : Type 0 where
  pub id : ℕ
  pub job_key : String
  pub status : JobStatus
  pub token_budget : ℕ
  pub tokens_used : ℕ
  pub task_count : ℕ
  pub completed_task_count : ℕ
  pub max_depth : ℕ
  pub current_depth : ℕ
  pub checkpoint_state : Option Dict
  pub job_metadata : Dict
  pub created_at : ℕ
  pub sophia_session_id : Option ℕ
  pub workflow_id : Option ℕ
  pub initiated_by : Option ℕ
  pub plan_id : Option ℕ
  pub cancel_reason : Option String
  pub error : Option String
  pub started_at : Option ℕ
  pub paused_at : Option ℕ
  pub completed_at : Option ℕ
  pub cancelled_at : Option ℕ

pub record ResearchTask : Type 0 where
  pub id : ℕ
  pub job_id : ℕ
  pub task_index : ℕ
  pub status : TaskStatus
  pub task_key : Option String
  pub task_type : String
  pub depth : ℕ
  pub retry_count : ℕ
  pub max_retries : ℕ
  pub input_payload : Dict
  pub output_payload : Option Dict
  pub error : Option String
  pub tokens_input : ℕ
  pub tokens_output : ℕ
  pub started_at : Option ℕ
  pub completed_at : Option ℕ
  pub created_at : ℕ

pub record TaskDependency : Type 0 where
  pub job_id : ℕ
  pub upstream_task_id : ℕ
  pub downstream_task_id : ℕ

-- A constructor is an event type with the payload that is written for it.
pub data ResearchEventBody : Type 0 where
  job_created : (job_key : String) (token_budget max_depth : ℕ) → ResearchEventBody
  job_started : (started_at : ℕ) → ResearchEventBody
  job_paused : (has_checkpoint : Bool) → ResearchEventBody
  job_resumed : ResearchEventBody
  job_completed job_checkpointed : (task_count tokens_used : ℕ) → ResearchEventBody
  job_failed : (error : String) → ResearchEventBody
  job_cancelled : (reason : String) → ResearchEventBody
  task_created : (task_index : ℕ) (task_type : String) → ResearchEventBody
  task_started task_cancelled task_skipped : (task_index : ℕ) → ResearchEventBody
  task_completed : (task_index tokens_input tokens_output : ℕ) → ResearchEventBody
  task_failed : (error : String) (task_index : ℕ) → ResearchEventBody
  task_retried : (retry_count max_retries : ℕ) → ResearchEventBody

pub record ResearchEvent : Type 0 where
  pub job_id : ℕ
  pub task_id : Option ℕ
  pub actor_id : Option ℕ
  pub body : ResearchEventBody

pub record Store : Type 0 where
  pub jobs : List ResearchJob
  pub tasks : List ResearchTask
  pub dependencies : List TaskDependency
  pub events : List ResearchEvent

pub data ResearchError : Type 0 where
  not_found : (job_id : ℕ) → ResearchError
  invalid_transition : (current target : JobStatus) → ResearchError
  task_not_found : (task_id : ℕ) → ResearchError
  invalid_task_transition : (current target : TaskStatus) → ResearchError
  retries_exhausted : (task_id max_retries : ℕ) → ResearchError
  duplicate_index cycle_in_spec missing_index out_of_fuel : ResearchError
  cycle : (job_id : ℕ) → ResearchError
  integrity_error : ResearchError

abbrev pub Session : Type 0 → Type 0
Session = Exec Store ResearchError

-- `ResearchEventRepository.append`
abbrev pub append_event :
    ResearchEventBody → (job_id : ℕ) (task_id actor_id : Option ℕ) → Session (Unit {0})
append_event body job_id task_id actor_id = modify (λ s. record s {
  events =
      s.events
      ++ record { job_id = job_id; task_id = task_id; actor_id = actor_id; body = body } ∷ [];
})
