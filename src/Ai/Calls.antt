-- ===== src/Ai/Calls.antt =====
-- Sequences of calls of backend/ai/lifecycle.py and backend/ai/gate.py.
pub mod Counted
pub mod Kept
pub mod Attempts
pub mod Progress
use the_dashboard.Common.{ℕ, String, Bool, Option, List, [], ◌∷◌}
use the_dashboard.Workflow.Database.{Dict, RiskLevel}
use the_dashboard.Ai.Registry.{Registry}
use the_dashboard.Ai.Execution
use the_dashboard.Ai.Execution.{AiExecutionContext, Store}
use the_dashboard.Ai.Gate

pub data AiCall : Type 0 where
  create : (id : ℕ) → AiExecutionContext → (requires_approval : Bool) → AiCall
  start : (execution_id now : ℕ) → AiCall
  complete : (execution_id : ℕ) (output : Dict) (tokens_used now : ℕ) → AiCall
  fail : (execution_id : ℕ) (error : String) → AiCall
  cancel : (execution_id : ℕ) (reason : String) (now : ℕ) → AiCall
  checkpoint : (execution_id : ℕ) (state : Dict) → AiCall
  mark_awaiting_approval : (execution_id approval_id : ℕ) → AiCall
  resume_from_approval : (execution_id : ℕ) → AiCall
  check_tool :
      Registry
      → (approval_id execution_id : ℕ) (tool_id : String) (workflow_id actor_id : Option ℕ)
      → RiskLevel
      → AiCall
  resolve :
      (execution_id approval_id : ℕ) (is_approved : Bool) (resolved_by : Option ℕ) (notes : String)
      (now : ℕ)
      → AiCall

-- The tables after a call, what it wrote before an exception included.
unfoldable pub perform : AiCall → Store → Store
perform (AiCall.create id context asks) s = (Execution.create id context asks s).1
perform (AiCall.start id now) s = (Execution.start id now s).1
perform (AiCall.complete id output tokens now) s = (Execution.complete id output tokens now s).1
perform (AiCall.fail id error) s = (Execution.fail id error s).1
perform (AiCall.cancel id reason now) s = (Execution.cancel id reason now s).1
perform (AiCall.checkpoint id state) s = (Execution.checkpoint id state s).1
perform (AiCall.mark_awaiting_approval id approval) s =
    (Execution.mark_awaiting_approval id approval s).1
perform (AiCall.resume_from_approval id) s = (Execution.resume_from_approval id s).1
perform (AiCall.check_tool tools approval id tool workflow actor risk) s =
    (Gate.check_tool tools approval id tool workflow actor risk s).1
perform (AiCall.resolve id approval is_approved by notes now) s =
    (Gate.resolve id approval is_approved by notes now s).1

unfoldable pub serve : List AiCall → Store → Store
serve [] s = s
serve (c ∷ cs) s = serve cs (perform c s)
