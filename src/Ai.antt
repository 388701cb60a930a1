-- ===== src/Ai.antt =====
-- The executions of language models: backend/ai. The models themselves are external services.
pub mod Registry
pub mod Execution
pub mod Gate
pub mod Calls
