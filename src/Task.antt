-- ===== src/Task.antt =====
-- src/task: the tasks of one worker.
pub mod Executor
