-- ===== src/Stack.antt =====
-- The readers of src/stack.rs for whole runs, and the purge of a project.
pub mod Runs
pub mod Purge
