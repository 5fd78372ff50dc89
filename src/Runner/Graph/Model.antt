-- ===== src/Runner/Graph/Model.antt =====
-- The data of src/runner/graph.rs, of src/runner/mod.rs and of src/stack.rs that the driver handles,
-- and the world that it runs in. Times and durations are left out of the records.
use kuromaku.Prelude.{ℕ, String, Bool, Option, none, some, List, Assoc, str_eq, if◌then◌else◌}
use kuromaku.Prelude.Number.{ℤ}
use kuromaku.Prelude.Result.{Result}
use kuromaku.Core.GraphFlow.{GraphFlow}
use kuromaku.Runner.Decision.{Bytes, AgentDecision, DecisionParseError}

pub data Backend : Type 0 where
  api claude_cli codex ollama : Backend

unfoldable pub yaml_name : Backend → String
yaml_name api = "api"
yaml_name claude_cli = "claude-cli"
yaml_name codex = "codex"
yaml_name ollama = "ollama"

unfoldable pub from_yaml_name : String → Option Backend
from_yaml_name s =
    if str_eq s "api"
    then some api
    else if str_eq s "claude-cli"
    then some claude_cli
    else if str_eq s "codex"
    then some codex
    else if str_eq s "ollama"
    then some ollama
    else none

-- The `extra_args` of an agent, a map with backends for keys.
abbrev pub BackendArgs : Type 0
BackendArgs = List (Backend × List String)

pub record Agent : Type 0 where
  pub id : String
  pub name : String
  pub title : Option String
  pub model : String
  pub backend : Backend
  pub extra_args : BackendArgs

pub record GraphDecision : Type 0 where
  pub transition : String
  pub reason : String
  pub matched_reason : Option String

pub record ParticipantStat : Type 0 where
  pub agent : String
  pub model : String
  pub turns : ℕ

pub record StepRecord : Type 0 where
  pub step_id : String
  pub kind : String
  pub agent : Option String
  pub model_requested : Option String
  pub model_actual : Option String
  pub backend : String
  pub exit_code : ℤ
  pub input_steps : List String
  pub output_file : String
  pub participants : List ParticipantStat
  pub turns : Option ℕ
  pub messages : Option ℕ
  pub terminated_by : Option String
  pub graph_decision : Option GraphDecision

pub record StepRunResult : Type 0 where
  pub step_id : String
  pub agent_name : String
  pub backend : String
  pub output_file : String
  pub print_output : Bool
  pub record_of : StepRecord

-- A step on disk: the number in the name of its meta file, the record that this file holds, and what the file that the
-- record names as its output now holds.
pub record StoredStep : Type 0 where
  pub number : ℕ
  pub entry : StepRecord
  pub content : String

abbrev pub Disk : Type 0
Disk = List StoredStep

pub data ExecutorError : Type 0 where
  failed : (exit_code : ℤ) (message : String) → ExecutorError
  broken : (message : String) → ExecutorError

-- An error of the file system is a constructor, with its text where the model's callers show it.
pub data StackError : Type 0 where
  create_dir_failed : StackError
  write_failed : StackError
  read_failed : (error : String) → StackError
  serialize_yaml : (error : String) → StackError
  step_not_found : String → StackError
  invalid_project_name : String → StackError
  project_not_found : (project : String) (path : List String) → StackError
  path_outside_stack_root : (path root : List String) → StackError
  remove_failed : (path : List String) (error : String) → StackError

-- The `reason` of a `GraphRuntime` error; the text is a constructor with the values that it shows.
pub data Reason : Type 0 where
  state_not_found : Reason
  cannot_resume : Reason
  cannot_advance : Reason
  input_failed : (error : String) → Reason
  no_select : Reason
  empty_select : Reason
  max_steps_exceeded : Reason
  visited_too_often : (visits : ℕ) → Reason
  no_command : Reason
  no_entry_for_exit : (exit_code : ℤ) (want : String) → Reason
  unknown_twice : (value : String) (allowed : List String) → Reason
  unparsable_twice : DecisionParseError String → Reason
  no_decision : Reason
  unsupported_backend : Reason

pub data RunError : Type 0 where
  unknown_agent : (step agent : String) → RunError
  executor_failed : (step : String) (source : ExecutorError) → RunError
  stack_error : (step : String) (source : StackError) → RunError
  llm_failed : (step error : String) → RunError
  conversation_unsupported_backend : (step agent : String) → Backend → RunError
  conversation_spawn : (step agent error : String) → RunError
  graph_runtime : (state : String) (reason : Reason) → RunError
  panicked : RunError

-- The command of an agent call: which of the executor's builders makes it, from what.
pub data Command : Type 0 where
  claude_command : (model system_prompt user_prompt : String) (extra_args : List String) → Command
  codex_command : (model system_prompt user_prompt : String) (extra_args : List String) → Command
  ollama_command : (model prompt : String) (extra_args : List String) → Command

-- How a shell command ended: by an exit that the executor passes on, by one that it turns into an
-- error (with the text of the stdout file), or not at all.
pub data ShellRun : Type 0 where
  exited : (stdout stderr : String) (exit_code : ℤ) → ShellRun
  failed_with : (stdout_file message : String) (exit_code : ℤ) → ShellRun
  not_run : ExecutorError → ShellRun

-- What the driver calls: processes, the terminal, the file system and serde_json. Each call that the
-- world answers may change the world. `system_prompt` is `build_system_prompt` with the rules and
-- skills that the run was set up with.
pub record World : Type 1 where
  pub State : Type 0
  pub run_agent :
      (state : String) (attempt : ℕ) → Command → State → Result ExecutorError String × State
  pub run_shell : (state command : String) → State → ShellRun × State
  pub read_human :
      (state : String) (task : Option String) (targets : List String)
      → State
      → Result String String × State
  pub now : State → String
  -- Whether the run's directory cannot be made, and whether a file cannot be written.
  pub init_fails : State → Bool
  pub write_fails : (file : String) → State → Bool
  -- The error of writing a record as YAML, if there is one, and what is read from a record's YAML.
  pub to_yaml_error : StepRecord → Option String
  pub reread : StepRecord → Result String StepRecord
  -- The errors of listing the run's directory and of reading a file, if there are any, and that of a file that is not
  -- there.
  pub read_dir_error : State → Option String
  pub read_error : (file : String) → State → Option String
  pub no_file : (file : String) → String
  -- The order in which the directory lists its files.
  pub listing : Disk → State → Disk
  pub from_str : Bytes → Result String AgentDecision
  pub system_prompt : Agent → String

pub data HumanHandoffPolicy : Type 0 where
  pause inline : HumanHandoffPolicy

pub record ResumeFrom : Type 0 where
  pub state : String
  pub step_num_offset : ℕ
  pub human_input_step_id : Option String

-- What a run is given.
pub record Setup : Type 0 where
  pub graph : GraphFlow
  pub agents_by_id : Assoc Agent
  pub state_to_agent : Assoc String
  pub run_id : String
  pub task : String
  pub policy : HumanHandoffPolicy

pub data GraphRunOutcome : Type 0 where
  final : (steps : List StepRunResult) (final_state : String) → GraphRunOutcome
  paused : (steps : List StepRunResult) (paused_at_state : String) → GraphRunOutcome

-- The variables of the loop, and the disk.
pub record Driver : Type 0 where
  pub current : String
  pub step_num : ℕ
  pub skip_pause_once : Bool
  pub human_input_step_id : Option String
  pub prior_state : Option String
  pub visits : Assoc ℕ
  pub results : List StepRunResult
  pub disk : Disk

abbrev pub default_max_steps : ℕ
default_max_steps = 30

abbrev pub default_max_visits_per_state : ℕ
default_max_visits_per_state = 5

module _ (w : World) where
  -- A part of the loop's body: it ends the run, or it goes on with new variables.
  pub data Step : Type 0 where
    continue : Driver → w.State → Step
    stop : Result RunError GraphRunOutcome → Driver → w.State → Step
