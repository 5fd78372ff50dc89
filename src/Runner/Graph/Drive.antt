-- ===== src/Runner/Graph/Drive.antt =====
-- `run_graph_flow` of src/runner/graph.rs. The loop's body is `advance`, cut at the kinds of states;
-- the variables are a `Driver`. The messages to the terminal are left out.
pub mod Calls
pub mod Round
pub mod Advance
pub mod Ends
pub mod Caps
pub mod Trace
pub mod Validated
pub mod Endless
use kuromaku.Prelude.{
  ℕ, zero, suc, ◌+◌, String, Bool, true, false, Option, none, some, List, [], ◌∷◌, ◌++◌, find,
  head?, Assoc, lookup, insert, str_eq, ltb, if◌then◌else◌,
}
use kuromaku.Prelude.Text.{trim_newlines}
use kuromaku.Prelude.Number.{pos}
use kuromaku.Prelude.Result.{Result, ok, err}
use kuromaku.Core.GraphFlow.{GraphState, SelectEntry, display, is_final, is_human, is_shell}
use kuromaku.Core.Validator.{entries_of}
use kuromaku.Runner.Decision.{AgentDecision}
use kuromaku.Runner.Graph.Model.{
  Agent, yaml_name, StepRecord, StepRunResult, StoredStep, Disk, RunError, graph_runtime,
  stack_error, create_dir_failed, unknown_agent, state_not_found, cannot_resume, cannot_advance,
  input_failed, no_select, empty_select, max_steps_exceeded, visited_too_often, World, Setup,
  ResumeFrom, HumanHandoffPolicy, pause, inline, GraphRunOutcome, final, paused, Driver, Step,
  continue, stop, default_max_steps, default_max_visits_per_state,
}
use kuromaku.Runner.Graph.Prompt.{build_menu, build_state_user_prompt, resolve_state_extra_args}
use kuromaku.Runner.Graph.Disk.{
  step_content_filename, read_run_step_content, write_run_step, synthesize_human_step_from_local,
}
use kuromaku.Runner.Graph.Shell.{targets_of, output_path, run_shell_state}
use kuromaku.Runner.Graph.Ask.{attempts}
use kuromaku.Runner.Graph.Working.{fail, working_state}
use kuromaku.Runner.Graph.Human.{human_state}

-- Rounds that suffice where a human state pauses the run: see `Drive.Ends`.
abbrev pub enough : ℕ
enough = 33

module _ (w : World) (setup : Setup) where
  -- One round of the loop.
  unfoldable pub advance : Driver → w.State → Step w
  unfolding fail
  advance d env = elim (lookup d.current setup.graph.graph) [
    | none ↦ fail w setup d env (graph_runtime d.current state_not_found)
    | some s ↦
        if is_final s
        then stop (ok (final d.results d.current)) d env
        else if is_human s
        then human_state w setup d s env
        else elim s.select [
          | none ↦ fail w setup d env (graph_runtime d.current no_select)
          | some [] ↦ fail w setup d env (graph_runtime d.current empty_select)
          | some (e ∷ es) ↦ working_state w setup d s (e ∷ es) env
        ]
  ]

  -- The loop; `none` when the fuel has run out.
  unfoldable pub drive :
      ℕ → Driver → w.State → Option (Result RunError GraphRunOutcome × Driver × w.State)
  drive zero d env = none
  drive (suc fuel) d env = elim (advance d env) [
    | stop r d' env' ↦ some (r, d', env')
    | continue d' env' ↦ drive fuel d' env'
  ]

  abbrev pub starting : Option ResumeFrom → Disk → Driver
  starting none disk = record {
    current = setup.graph.initial;
    step_num = 0;
    skip_pause_once = false;
    human_input_step_id = none;
    prior_state = none;
    visits = [];
    results = [];
    disk = disk;
  }
  starting (some r) disk = record {
    current = r.state;
    step_num = r.step_num_offset;
    skip_pause_once = true;
    human_input_step_id = r.human_input_step_id;
    prior_state = none;
    visits = [];
    results = [];
    disk = disk;
  }

  unfoldable pub run_graph_flow :
      (fuel : ℕ)
      → Option ResumeFrom
      → Disk
      → w.State
      → Option (Result RunError GraphRunOutcome × Driver × w.State)
  run_graph_flow fuel resume disk env =
      if w.init_fails env
      then some (err (stack_error "<run-init>" create_dir_failed), starting resume disk, env)
      else drive fuel (starting resume disk) env
