-- ===== src/Executor/Local/Model.antt =====
-- The data of src/executor/local.rs. `System` has the environment, the spawning of a process, the opening of a
-- file and serde_json's decoder. A child is the lines that it writes, and what waiting for it gives; `stdout_left`
-- and `stderr_left` are the lines that its two readers have not read yet. `file` is what has been written to the
-- artifact's file.
use kuromaku.Prelude.{ℕ, String, Option, List, Assoc}
use kuromaku.Prelude.Number.{ℤ}
use kuromaku.Prelude.Result.{Result}
use kuromaku.Executor.Stream.{Json}

pub data OutputFormat : Type 0 where
  raw claude_stream_json : OutputFormat

pub record ExecutionTask : Type 0 where
  pub id : String
  pub command : String
  pub env : Assoc String
  pub stdout_file : Option String
  pub output_format : OutputFormat

pub record ExecutionHandle : Type 0 where
  pub id : String
  pub metadata : Assoc String

pub data ExecutionStatus : Type 0 where
  running completed : ExecutionStatus
  failed : String → ExecutionStatus

pub record ExecutionOutput : Type 0 where
  pub stdout : String
  pub stderr : String
  pub exit_code : ℤ

-- `std::process::ExitStatus`: a process that a signal has ended has no code.
pub record ExitStatus : Type 0 where
  pub code : Option ℤ

pub record Child : Type 0 where
  pub pid : Option ℕ
  pub stdout : Option (List String)
  pub stderr : Option (List String)
  pub exit : Result String ExitStatus

pub record System : Type 0 where
  pub var : String → Option String
  pub spawn_child : (command : String) (env : Assoc String) → Result String Child
  pub open_file : String → Option String
  pub from_str : String → Option Json

pub record RunningProcess : Type 0 where
  pub child : Child
  pub stdout_buf : String
  pub stderr_buf : String
  pub result_override : Option String
  pub output_format : OutputFormat
  pub file : Option String
  pub stdout_left : List String
  pub stderr_left : List String

pub record LocalExecutor : Type 0 where
  pub processes : Assoc RunningProcess
