-- ===== src/Research.antt =====
-- The research runtime: backend/research.
pub mod Tables
pub mod Job
pub mod Task
pub mod Graph
pub mod Spec
pub mod Calls
