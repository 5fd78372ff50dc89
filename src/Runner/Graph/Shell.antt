-- ===== src/Runner/Graph/Shell.antt =====
-- `run_shell_state` of src/runner/graph.rs: a command, routed by its exit code.
use kuromaku.Prelude.{
  ℕ, String, false, Option, none, some, List, [], map, find, str_eq, if◌then◌else◌,
}
use kuromaku.Prelude.Text.{◌<>◌, is_blank, trim, strip_prefix}
use kuromaku.Prelude.Number.{ℤ, is_zero, show_int}
use kuromaku.Prelude.Result.{Result, ok, err}
use kuromaku.Core.GraphFlow.{SelectEntry}
use kuromaku.Core.Validator.{reason_text}
use kuromaku.Runner.Graph.Model.{
  StepRecord, StepRunResult, StoredStep, Disk, ExecutorError, RunError, graph_runtime,
  executor_failed, stack_error, no_command, no_entry_for_exit, ShellRun, exited, failed_with,
  not_run, World, Setup,
}
use kuromaku.Runner.Graph.Prompt.{render_shell_artifact}
use kuromaku.Runner.Graph.Disk.{step_content_filename, write_run_step}

abbrev pub targets_of : List SelectEntry → List String
targets_of = map (λ e. e.target)

-- Stdout, stderr and exit code; a failed exit is no error here, but the signal to route by.
unfoldable pub shell_output : ShellRun → Result ExecutorError (String × String × ℤ)
unfolding strip_prefix trim show_int
shell_output (exited stdout stderr code) = ok (stdout, stderr, code)
shell_output (failed_with stdout_file message code) =
    let prefix = "process exited with code " <> show_int code <> ": " in
    ok (
      trim stdout_file,
      (elim (strip_prefix prefix message) [ none ↦ message | some rest ↦ rest ]),
      code,
    )
shell_output (not_run e) = err e

abbrev pub wanted : ℤ → String
wanted code = if is_zero code then "pass" else "fail"

unfoldable pub entry_for : ℤ → List SelectEntry → Option SelectEntry
unfolding find reason_text
entry_for code entries = find (λ e. str_eq (reason_text e) (wanted code)) entries

abbrev pub shell_record : String → ℕ → ℤ → String → StepRecord
shell_record state_id step_num code target = record {
  step_id = state_id;
  kind = "shell";
  agent = none;
  model_requested = none;
  model_actual = none;
  backend = "shell";
  exit_code = code;
  input_steps = [];
  output_file = step_content_filename step_num state_id "txt";
  participants = [];
  turns = none;
  messages = none;
  terminated_by = none;
  graph_decision = some (record {
    transition = target;
    reason = "exit code " <> show_int code;
    matched_reason = some (wanted code);
  });
}

-- `{run_id}/steps/{file}`.
abbrev pub output_path : String → String → String
output_path run_id file = run_id <> "/steps/" <> file

abbrev pub shell_result : String → StepRecord → StepRunResult
shell_result run_id r = record {
  step_id = r.step_id;
  agent_name = "shell";
  backend = "shell";
  output_file = output_path run_id r.output_file;
  print_output = false;
  record_of = r;
}

pub record ShellStateOutcome : Type 0 where
  pub result : StepRunResult
  pub next_state : String
  pub disk : Disk

module _ (w : World) where
  -- What `run_shell_state` does once the command has ended.
  unfoldable pub finish_shell :
      Setup
      → (state_id : String) → List SelectEntry
      → (command : String) → ℕ
      → Disk
      → String × String × ℤ
      → w.State
      → Result RunError ShellStateOutcome
  finish_shell setup state_id entries command step_num disk (stdout, stderr, code) env =
      elim (entry_for code entries) [
        | none ↦ err (graph_runtime state_id (no_entry_for_exit code (wanted code)))
        | some e ↦
            let r = shell_record state_id step_num code e.target in
            let stored : StoredStep = record {
              number = step_num;
              entry = r;
              content = render_shell_artifact command code stdout stderr;
            } in
            elim (write_run_step w stored disk env) [
              | err x ↦ err (stack_error state_id x)
              | ok disk' ↦ ok (record {
                result = shell_result setup.run_id r;
                next_state = e.target;
                disk = disk';
              })
            ]
      ]

  unfoldable pub run_shell_state :
      Setup
      → (state_id : String) → List SelectEntry
      → (command : String) → ℕ
      → Disk
      → w.State
      → Result RunError ShellStateOutcome × w.State
  run_shell_state setup state_id entries command step_num disk env =
      if is_blank command
      then (err (graph_runtime state_id no_command), env)
      else let (run, env') = w.run_shell state_id command env in
        elim (shell_output run) [
          | err e ↦ (err (executor_failed state_id e), env')
          | ok output ↦
              (finish_shell setup state_id entries command step_num disk output env', env')
        ]
