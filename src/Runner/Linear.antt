-- ===== src/Runner/Linear.antt =====
-- The linear runner of src/runner/mod.rs: the steps of a flow one after another.
pub mod Model
pub mod Comment
pub mod Transcript
pub mod Steps
pub mod Talk
pub mod Run
pub mod Stored
pub mod Inputs
pub mod Missing
pub mod Fine
pub mod Fed
pub mod Whole
pub mod Totals
mod Tests
