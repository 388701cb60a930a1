-- ===== src/Context.antt =====
-- The context that is handed to a model: backend/context.
pub mod Budget
pub mod Window
