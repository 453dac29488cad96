-- ===== src/State.antt =====
-- Package internal/state: the task record and the store that holds one for each task.
pub mod Task
pub mod Store
