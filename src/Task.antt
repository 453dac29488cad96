-- ===== src/Task.antt =====
-- Package internal/task.
pub mod Spec
