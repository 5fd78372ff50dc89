-- ===== src/Runner/Graph/Working.antt =====
-- The rounds of `run_graph_flow` at a state that works: a command is run, or an agent is asked
-- (src/runner/graph.rs).
use kuromaku.Prelude.{
  ℕ, ◌+◌, String, false, Option, none, some, List, [], ◌∷◌, ◌++◌, find, Assoc, lookup, insert,
  str_eq, ltb, if◌then◌else◌,
}
use kuromaku.Prelude.Number.{pos}
use kuromaku.Prelude.Result.{Result, ok, err}
use kuromaku.Core.GraphFlow.{GraphState, SelectEntry, display, is_shell}
use kuromaku.Runner.Decision.{AgentDecision}
use kuromaku.Runner.Graph.Model.{
  Agent, yaml_name, StepRecord, StepRunResult, StoredStep, Disk, RunError, graph_runtime,
  stack_error, unknown_agent, max_steps_exceeded, visited_too_often, World, Setup, Driver, Step,
  continue, stop, default_max_steps, default_max_visits_per_state,
}
use kuromaku.Runner.Graph.Prompt.{build_menu, build_state_user_prompt, resolve_state_extra_args}
use kuromaku.Runner.Graph.Disk.{step_content_filename, read_run_step_content, write_run_step}
use kuromaku.Runner.Graph.Shell.{targets_of, output_path, run_shell_state}
use kuromaku.Runner.Graph.Ask.{attempts}

-- `entries.iter().find(…).and_then(…).map(…)`: the reason that the flow gives for a target.
unfoldable pub matched_reason : String → List SelectEntry → Option String
unfolding find display
matched_reason target entries = elim (find (λ e. str_eq e.target target) entries) [
  | none ↦ none
  | some e ↦ elim e.reason [ none ↦ none | some r ↦ some (display r) ]
]

abbrev listed : Option String → List String
listed none = []
listed (some s) = s ∷ []

abbrev pub agent_record : Driver → List SelectEntry → Agent → AgentDecision → StepRecord
agent_record d entries agent decision = record {
  step_id = d.current;
  kind = "graph";
  agent = some agent.name;
  model_requested = some agent.model;
  model_actual = some agent.model;
  backend = yaml_name agent.backend;
  exit_code = pos 0;
  input_steps = listed d.prior_state;
  output_file = step_content_filename d.step_num d.current "md";
  participants = [];
  turns = none;
  messages = none;
  terminated_by = none;
  graph_decision = some (record {
    transition = decision.transition;
    reason = decision.reason;
    matched_reason = matched_reason decision.transition entries;
  });
}

abbrev pub agent_result : String → Agent → StepRecord → StepRunResult
agent_result run_id agent r = record {
  step_id = r.step_id;
  agent_name = agent.name;
  backend = yaml_name agent.backend;
  output_file = output_path run_id r.output_file;
  print_output = false;
  record_of = r;
}

-- The variables behind a state that has run.
abbrev pub ran : Driver → StepRunResult → String → Disk → Driver
ran d r next disk = record d {
  current = next;
  prior_state = some d.current;
  results = d.results ++ r ∷ [];
  disk = disk;
}

abbrev pub visits_of : Assoc ℕ → String → ℕ
visits_of visits id = elim (lookup id visits) [ none ↦ 0 | some n ↦ n ]

abbrev pub command_of : GraphState → String
command_of s = elim s.run [ none ↦ "" | some c ↦ c ]

module _ (w : World) (setup : Setup) where
  unfoldable pub fail : Driver → w.State → RunError → Step w
  fail d env e = stop (err e) d env

  -- The state's prompt, from the artifact of the state before.
  unfoldable pub prior_context : Driver → w.State → Result RunError (Option (String × String))
  prior_context d env = elim d.prior_state [
    | none ↦ ok none
    | some prev ↦ elim (read_run_step_content w d.disk prev env) [
      | err e ↦ err (stack_error d.current e)
      | ok body ↦ ok (some (prev, body))
    ]
  ]

  -- What follows a decision: the record is written, and the driver moves to the target.
  unfoldable pub record_decision :
      Driver → List SelectEntry → Agent → AgentDecision → String → w.State → Step w
  unfolding fail
  record_decision d entries agent decision raw env =
      let r = agent_record d entries agent decision in
      let stored : StoredStep = record { number = d.step_num; entry = r; content = raw } in
      elim (write_run_step w stored d.disk env) [
        | err e ↦ fail d env (stack_error d.current e)
        | ok disk ↦
            continue (ran d (agent_result setup.run_id agent r) decision.transition disk) env
      ]

  unfoldable pub ask_agent : Driver → GraphState → List SelectEntry → Agent → w.State → Step w
  unfolding fail
  ask_agent d s entries agent env = elim (prior_context d env) [
    | err e ↦ fail d env e
    | ok context ↦
        let prompt =
          build_state_user_prompt setup.task s.task context (build_menu d.current entries) in
        let args = resolve_state_extra_args s agent agent.backend in
        let (r, env') = attempts w d.current agent prompt args (targets_of entries) 2 0 none env in
        elim r [
          | err e ↦ fail d env' e
          | ok (decision, raw) ↦ record_decision d entries agent decision raw env'
        ]
  ]

  unfoldable pub agent_state : Driver → GraphState → List SelectEntry → w.State → Step w
  unfolding fail
  agent_state d s entries env = elim (lookup d.current setup.state_to_agent) [
    | none ↦ fail d env (unknown_agent d.current (elim s.role [ none ↦ "" | some role ↦ role ]))
    | some agent_id ↦ elim (lookup agent_id setup.agents_by_id) [
      | none ↦ fail d env (unknown_agent d.current agent_id)
      | some agent ↦ ask_agent d s entries agent env
    ]
  ]

  unfoldable pub shell_state : Driver → GraphState → List SelectEntry → w.State → Step w
  unfolding fail
  shell_state d s entries env =
      let (r, env') =
        run_shell_state w setup d.current entries (command_of s) d.step_num d.disk env in
      elim r [ err e ↦ fail d env' e | ok o ↦ continue (ran d o.result o.next_state o.disk) env' ]

  -- A state that runs a command or asks an agent: the two caps come first.
  unfoldable pub working_state : Driver → GraphState → List SelectEntry → w.State → Step w
  unfolding fail
  working_state d s entries env =
      let step_num = d.step_num + 1 in
      let visit = visits_of d.visits d.current + 1 in
      let d' = record d { step_num = step_num; visits = insert d.current visit d.visits } in
      if ltb default_max_steps step_num
      then fail d env (graph_runtime d.current max_steps_exceeded)
      else if ltb default_max_visits_per_state visit
      then fail d env (graph_runtime d.current (visited_too_often visit))
      else if is_shell s
      then shell_state d' s entries env
      else agent_state d' s entries env
