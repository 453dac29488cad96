-- ===== src/Tests.antt =====
-- Runs of the model on concrete inputs, and each theorem at an input that meets its hypotheses.
mod Sched
mod Project
mod Peer
mod Fence
mod Image
mod Result
mod Task
