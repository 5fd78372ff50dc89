-- ===== src/Runner/Linear/Steps.antt =====
-- A shell step and a step of one agent (src/runner/mod.rs). The artifact that a process streams to
-- while it runs is overwritten behind it, and is left out; so is what is printed.
use kuromaku.Prelude.{ℕ, String, Option, none, some, List, [], ◌∷◌}
use kuromaku.Prelude.Text.{◌<>◌, join}
use kuromaku.Prelude.Number.{pos}
use kuromaku.Prelude.Result.{Result, ok, err}
use kuromaku.Config.{Step}
use kuromaku.Runner.Graph.Model.{
  Backend, api, claude_cli, codex, ollama, Agent, StepRecord, StepRunResult, Disk, RunError,
  executor_failed, stack_error, llm_failed, panicked, Command, claude_command, codex_command,
  ollama_command, World,
}
use kuromaku.Runner.Graph.Prompt.{args_for}
use kuromaku.Runner.Graph.Shell.{output_path}
use kuromaku.Runner.Graph.Disk.{step_content_filename, write_run_step, read_run_step_content}
use kuromaku.Runner.Linear.Model.{Context, Calls, StepEnd, finished, failed_with}
use kuromaku.Runner.Linear.Comment.{comment_on}

unfoldable pub backend_name : Backend → String
backend_name api = "api"
backend_name claude_cli = "claude-cli"
backend_name codex = "codex"
backend_name ollama = "ollama"

-- The step's map replaces the agent's whole map if it has any entry.
unfoldable pub resolve_extra_args : Step → Agent → Backend → List String
unfolding args_for
resolve_extra_args step agent backend = elim step.extra_args [
  | [] ↦ args_for backend agent.extra_args
  | first ∷ rest ↦ args_for backend (first ∷ rest)
]

abbrev pub or_else : {A : Type 0} → Option A → A → A
or_else none a = a
or_else (some b) a = b

unfoldable pub context_part : (input_id body : String) → String
context_part input_id body = "--- Output from step '" <> input_id <> "' ---\n" <> body <> "\n---"

unfoldable pub read_inputs :
    (w : World)
    → Disk
    → (step : String) → (inputs : List String) → w.State
    → Result RunError (List String)
unfolding read_run_step_content context_part
read_inputs w disk step [] env = ok []
read_inputs w disk step (i ∷ is) env =
    let rest = read_inputs w disk step is env in
    elim (read_run_step_content w disk i env) [
      | err e ↦ err (stack_error step e)
      | ok body ↦ elim rest [ err e ↦ err e | ok parts ↦ ok (context_part i body ∷ parts) ]
    ]

abbrev pub with_own_task : Option String → String → String
with_own_task none text = text
with_own_task (some task) text = text <> "\n\nYour task: " <> task

abbrev pub with_parts : List String → String → String
with_parts [] text = text
with_parts (p ∷ ps) text =
    text
    <> "\n\nContext from previous steps:\n\n"
    <> join "\n\n" (p ∷ ps)
    <> "\n\nIMPORTANT: The above is work already completed by other team members. Build on their output -- do not repeat or rephrase what they already covered. Add your own perspective, analysis, or implementation."

unfoldable pub build_user_prompt :
    (w : World) → (task : String) → Step → Disk → w.State → Result RunError String
unfolding read_inputs
build_user_prompt w task step disk env = elim (read_inputs w disk step.id step.input env) [
  | err e ↦ err e
  | ok parts ↦ ok (with_parts parts (with_own_task step.task task))
]

-- No command for the API: the code that calls this is `unreachable!` there.
unfoldable pub step_command : Backend → (model system user : String) → List String → Option Command
step_command claude_cli model system user args = some (claude_command model system user args)
step_command codex model system user args = some (codex_command model system user args)
step_command ollama model system user args =
    some (ollama_command model ("System: " <> system <> "\n\n" <> "User: " <> user) args)
step_command api model system user args = none

abbrev plain_record : Step → ℕ → StepRecord
plain_record step step_num = record {
  step_id = step.id;
  kind = "shell";
  agent = none;
  model_requested = none;
  model_actual = none;
  backend = "shell";
  exit_code = pos 0;
  input_steps = step.input;
  output_file = step_content_filename step_num step.id "txt";
  participants = [];
  turns = none;
  messages = none;
  terminated_by = none;
  graph_decision = none;
}

abbrev agent_record : Step → ℕ → Agent → (model : String) → Backend → StepRecord
agent_record step step_num agent model backend = record (plain_record step step_num) {
  kind = "llm";
  agent = some agent.name;
  model_requested = some model;
  model_actual = some model;
  backend = backend_name backend;
  output_file = step_content_filename step_num step.id "md";
}

abbrev pub result_of : Context → Step → (agent_name backend : String) → StepRecord → StepRunResult
result_of ctx step agent_name backend r = record {
  step_id = step.id;
  agent_name = agent_name;
  backend = backend;
  output_file = output_path ctx.run_id r.output_file;
  print_output = step.print_output;
  record_of = r;
}

-- The end of a step that has its content: the files are written, and nothing else can fail.
unfoldable pub stored :
    (w : World)
    → ℕ
    → Step
    → StepRecord
    → (content : String) → StepRunResult
    → Disk
    → w.State
    → StepEnd
unfolding write_run_step
stored w step_num step r content result disk env =
    elim (write_run_step w (record { number = step_num; entry = r; content = content }) disk env) [
      | err e ↦ failed_with (stack_error step.id e)
      | ok disk' ↦ finished result disk'
    ]

-- A comment is posted only behind the write.
abbrev pub commented : {S : Type 0} → (S → S) → StepEnd × S → StepEnd × S
commented post (finished r d, env) = (finished r d, post env)
commented post (other, env) = (other, env)

module _ (w : World) (c : Calls w) (ctx : Context) where
  unfoldable pub run_step_via_executor :
      Step
      → (system user model : String) → Backend
      → List String
      → w.State
      → Result RunError String × w.State
  unfolding step_command
  run_step_via_executor step system user model backend args env =
      elim (step_command backend model system user args) [
        | none ↦ (err panicked, env)
        | some command ↦
            let (r, env') = w.run_agent step.id 0 command env in
            elim r [ ok out ↦ (ok out, env') | err e ↦ (err (executor_failed step.id e), env') ]
      ]

  unfoldable pub run_step_via_api :
      Step → (system user model : String) → w.State → Result RunError String × w.State
  run_step_via_api step system user model env =
      let (r, env') = c.call_api step.id model system user env in
      elim r [ ok out ↦ (ok out, env') | err e ↦ (err (llm_failed step.id e), env') ]

  -- `backend_needs_executor` is false for the API alone.
  unfoldable pub run_backend :
      Step
      → (system user model : String) → Backend
      → List String
      → w.State
      → Result RunError String × w.State
  unfolding run_step_via_executor run_step_via_api
  run_backend step system user model api args env = run_step_via_api step system user model env
  run_backend step system user model backend args env =
      run_step_via_executor step system user model backend args env

  unfoldable pub run_agent_step :
      Step → ℕ → Agent → List StepRunResult → Disk → w.State → StepEnd × w.State
  unfolding build_user_prompt run_backend resolve_extra_args stored backend_name comment_on
  run_agent_step step step_num agent results disk env =
      let model = or_else step.model agent.model in
      let backend = or_else step.backend agent.backend in
      let r = agent_record step step_num agent model backend in
      elim (build_user_prompt w ctx.task step disk env) [
        | err e ↦ (failed_with e, env)
        | ok user ↦
            let (reply, env') =
              run_backend step (w.system_prompt agent) user model backend
                (resolve_extra_args step agent backend) env in
            elim reply [
              | err e ↦ (failed_with e, env')
              | ok content ↦
                  commented
                    (comment_on w c ctx step.post_comment agent.name content step.input results)
                    (
                      stored w step_num step r content
                          (result_of ctx step agent.name (backend_name backend) r) disk env',
                      env',
                    )
            ]
      ]

  -- The command is the step's `run`; without one the code panics.
  unfoldable pub run_shell_step : Step → ℕ → List StepRunResult → Disk → w.State → StepEnd × w.State
  unfolding stored comment_on
  run_shell_step step step_num results disk env = elim step.run [
    | none ↦ (failed_with panicked, env)
    | some command ↦
        let (r, env') = c.run_command step.id command env in
        elim r [
          | err e ↦ (failed_with (executor_failed step.id e), env')
          | ok stdout ↦
              commented (comment_on w c ctx step.post_comment "shell" stdout step.input results) (
                stored w step_num step (plain_record step step_num) stdout
                    (result_of ctx step "shell" "shell" (plain_record step step_num)) disk env',
                env',
              )
        ]
  ]
