-- ===== src/Ai/Registry.antt =====
-- backend/ai/registry.py: the tools that an execution may call. The dict `_tools` is a function.
use the_dashboard.Common.{String, Bool, false, Option, none, some, str_eq, if◌then◌else◌}
use the_dashboard.Workflow.Database.{Dict, ApprovalType}

pub record AiToolDefinition : Type 0 where
  pub tool_id : String
  pub name : String
  pub description : String
  pub input_schema : Dict
  pub requires_approval : Bool
  pub approval_type : Option ApprovalType
  pub is_sandbox_safe : Bool

abbrev pub Registry : Type 0
Registry = String → Option AiToolDefinition

-- `AIToolRegistry.register`
unfoldable pub register : AiToolDefinition → Registry → Registry
register tool tools tool_id = if str_eq tool_id tool.tool_id then some tool else tools tool_id

-- `AIToolRegistry.unregister`
unfoldable pub unregister : (tool_id : String) → Registry → Registry
unregister tool_id tools id = if str_eq id tool_id then none else tools id

abbrev needs_approval : Option AiToolDefinition → Bool
needs_approval none = false
needs_approval (some tool) = tool.requires_approval

-- `AIToolRegistry.requires_approval`
unfoldable pub requires_approval : (tool_id : String) → Registry → Bool
requires_approval tool_id tools = needs_approval (tools tool_id)
