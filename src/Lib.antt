-- ===== src/Lib.antt =====
-- The verification library of kuromaku: the parts that read, check and run graph flows, and
-- the router for conversations of agents.
--
-- A graph flow is a state machine in YAML. It is parsed into the data of src/core/graph_flow.rs and
-- checked by the two validators of src/core/validator.rs. The driver in src/runner/graph.rs walks it:
-- a shell state runs a command and is routed by the exit code, an agent state prompts an agent, whose
-- reply src/runner/decision.rs turns into one of the state's targets, a human state pauses the run or
-- reads a person's input, and a final state ends it. Each step is written to the run's directory by
-- src/stack.rs, and the step before is read from there into the next prompt.
--
-- A conversation step lets several agents talk: src/messaging/router.rs relays their results to each
-- other until a cap, convergence, a timeout or the end of a channel.
--
-- Files:
--   Prelude        shared names, lists, texts and numbers, and the result type. A text is a list of
--                  characters; `trim` follows Rust's White_Space.
--   Core/GraphFlow      src/core/graph_flow.rs: GraphFlow, GraphState, SelectEntry, and the serde
--                  code of versions and entries over YAML values (deserialize_entry, serialize_entry).
--   Core/Validator      src/core/validator.rs: validate_graph_flow, validate_graph_reachability. An
--                  error is a constructor with the values that its text shows. Spec has the
--                  description that the first is compared with; Reaches the paths for the second.
--   Runner/Decision     src/runner/decision.rs: top_level_json_objects over the bytes of a reply,
--                  parse_agent_decision, validate_transition. serde_json's decoder is the parameter
--                  `from_str`. Where the source unwraps by `expect`, the result is `none`.
--   Runner/Graph/Model  the data of the driver, and `World`: processes, the terminal, the clock, the
--                  file system and serde_json, as functions that may change a state of their own.
--   Runner/Graph/Prompt the texts that src/runner/graph.rs writes.
--   Runner/Graph/Disk   write_run_step and read_run_step_content of src/stack.rs, and the synthetic
--                  step of a person's input (src/runner/mod.rs, src/notify/github.rs). The disk is the
--                  list of the records in it, each with its number and what its output file holds: records
--                  that name one file share what is written there. The order of the directory, the errors
--                  of its files and what YAML makes of a record are `World`'s.
--   Runner/Graph/Shell  run_shell_state of src/runner/graph.rs.
--   Runner/Graph/Ask    run_state_via_executor, and the loop over two attempts.
--   Runner/Graph/Working, Runner/Graph/Human, Runner/Graph/Drive
--                  run_graph_flow: a round at a state that works, a round at a human state, and the
--                  loop. The loop's variables are a `Driver`, and one round is `advance`.
--   Config              the linear flow of src/config.rs, as the parser leaves it.
--   Dag                 src/dag.rs: validate_dag, the loop over its queue, and the depth-first search that
--                  names a cycle. Spec says what an order and a cycle are.
--   Runner/RunPath      unique_run_path of src/runner/mod.rs, over the list of the names in the directory.
--   Runner/Linear       the linear runner of src/runner/mod.rs. Run has run_steps_with_state, Steps the
--                  shell and agent steps with build_user_prompt, Talk a conversation step, which runs
--                  Messaging/Router with the writer of Messaging/Audit for its logger, Transcript its
--                  transcript, Comment the comments of src/notify/github.rs. `Calls` is the API client,
--                  gh, sh, the transports, the person and the audit file. The logger's calls are made
--                  behind the router's. The order of the steps is that of Dag.
--   Stack/Runs          read_run and collect_run_steps of src/stack.rs, over a directory that is its listing and
--                  its files. Order says which directories hold a run.
--   Stack/Purge         validate_project_name, resolve_project_path, inspect_directory and purge_project of
--                  src/stack.rs. A path is its components, and `Files` the file system.
--   Executor/Command    build_claude_command, build_codex_command, build_ollama_command and shell_escape
--                  of src/executor/mod.rs. The program's path is an argument. Shell has the reading
--                  that `sh` gives a command made of plain, quoted and escaped characters.
--   Executor/Stream     src/executor/stream_json.rs: parse_line. `from_str` is serde_json's decoder, `Json`
--                  its values. Meaning says which values carry which fragment.
--   Executor/Local      src/executor/local.rs: LocalExecutor. `System` is the parent's environment, the spawning
--                  of a process, the opening of a file and the decoder; a child is its lines and its exit.
--                  Model has the data, Readers the readers of the output, Table the executor under any
--                  sequence of calls and of turns of its readers.
--   Executor/Transport  src/executor/transport.rs: StreamJsonTransport. `Unbounded` is tokio's channel, `Pipe`
--                  the child's stdin. Order has its readers and the receiving in any interleaving.
--   Messaging/Router    src/messaging/router.rs: the data of the log, Router and Router::run. The branch
--                  that `select!` takes is an `Event`, a conversation a list of them; `handle` is the
--                  loop's body, `converse` the loop, which without a further event still waits. The
--                  agents' transports are the parameter `Transports`. Rule has the rule by which
--                  properties of whole conversations are shown.
--   Messaging/Audit     src/messaging/audit.rs: the writer of the audit log, which the logger of a
--                  conversation (src/runner/mod.rs) calls for each entry of the router's log, and its
--                  reader. The file is a text; `World` is ULIDs, the clock, writes and flushes, `Codec`
--                  is serde_json.
--   Mcp/Session         src/mcp/session.rs with what runs publish (flow_api in src/runner/mod.rs), and
--                  SendMessage::call of src/mcp/messaging.rs. `Mpsc` is the sending into tokio's channels.
--
-- The loop of run_graph_flow is `drive`, recursion on fuel. 33 rounds are enough where human states
-- pause the run: at most 30 steps are counted, one round ends the run, and one skips the pause that a
-- run is resumed at. Where human states are handled at the terminal no fuel is enough for all flows.
-- The walk of validate_graph_reachability has one round for each target in the flow and one for the
-- initial state; a theorem shows that it ends within them.
-- The loop over the queue of validate_dag takes one step from it in each round, and the search for a
-- cycle goes no deeper than there are steps: both have fuel for one more.
-- unique_run_path tries one more name than there are names. Its counter, a u32 in the code, is a natural
-- number here: the two agree below 2 ^ 32 names.
--
-- Left out: what a write that fails leaves in the run's directory, messages to the terminal, times and durations, the creation of directories but for its
-- failure, the ends of reader tasks, and the derived serde code of the records.
-- Not modelled: the flow API but for its published routers; the configuration parsers and the cascade
-- that binds roles, since the library goes on from a flow that has been read and bound; the context of
-- a project; the JSON-RPC server and its other tools; the writers of single files in src/stack.rs; and
-- the command line.
pub mod Mcp
pub mod Stack
pub mod Prelude
pub mod Config
pub mod Core
pub mod Dag
pub mod Runner
pub mod Messaging
pub mod Executor
