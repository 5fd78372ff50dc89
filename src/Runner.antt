-- ===== src/Runner.antt =====
-- The runner (src/runner): the name of a run, the agents' decisions and the driver of the state machine.
pub mod Decision
pub mod Graph
pub mod RunPath
pub mod Linear
