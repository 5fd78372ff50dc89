-- ===== src/Core.antt =====
-- The engine's core (src/core): the shapes of a graph flow and the validators over them.
pub mod GraphFlow
pub mod Validator
