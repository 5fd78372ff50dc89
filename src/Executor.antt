-- ===== src/Executor.antt =====
-- src/executor: the commands that run agents.
pub mod Command
pub mod Stream
pub mod Local
pub mod Transport
