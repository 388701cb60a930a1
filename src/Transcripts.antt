-- ===== src/Transcripts.antt =====
-- Transcripts and their streaming sessions: backend/transcripts.
pub mod Tables
pub mod Numbers
pub mod Stream
pub mod Calls
pub mod Reconstruction
