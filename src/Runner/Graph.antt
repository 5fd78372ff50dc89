-- ===== src/Runner/Graph.antt =====
-- src/runner/graph.rs: the driver that walks a graph flow. `Model` has its data and what stands
-- outside it, `Prompt` the texts that it writes, `Disk` the step records, `Shell`
-- and `Ask` the calls, `Working` and `Human` the kinds of states, and `Drive` the loop.
pub mod Model
pub mod Prompt
pub mod Disk
pub mod Shell
pub mod Ask
pub mod Working
pub mod Human
pub mod Drive
mod Tests
