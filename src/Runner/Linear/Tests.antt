-- ===== src/Runner/Linear/Tests.antt =====
-- Two steps, the second with the first for an input, and a conversation.
use kuromaku.Prelude.{
  ℕ, ◌%◌, ◌^◌, String, ◌≡◌, refl, inl, inr, true, false, none, some, List, [], ◌∷◌, Distinct,
  contains, not-contains, str_eq,
}
use kuromaku.Prelude.Result.{ok, err}
use kuromaku.Prelude.Number.{pos}
use kuromaku.Config.{Step, FlowConfig}
use kuromaku.Messaging.Router.Turns.{results_in}
use kuromaku.Runner.Linear.Talk.{agent_ids, stats, total_turns}
use kuromaku.Runner.Linear.Totals.{total_turns-run}
use kuromaku.Messaging.Router.{
  Router, Event, human_said, agents_done, tool_use, default_config, run, agent_said, result,
  converse, handle, on_event, relay_fragment, relay_result, converged, broadcast, deliver,
}
use kuromaku.Runner.Graph.Model.{api, claude_cli, Agent, World, Disk, not_run, broken}
use kuromaku.Runner.Graph.Disk.{overwrite, step_content_filename}
use kuromaku.Runner.Linear.Model.{Context, Calls, transports}
use kuromaku.Runner.Linear.Stored.{ListsAll}
use kuromaku.Runner.Linear.Inputs.{Tasked, EndsWithInputs, build_user_prompt-Carries}
use kuromaku.Runner.Linear.Steps.{build_user_prompt}
use kuromaku.Runner.Linear.Run.{RunEnd, done, aborted, stalled, run_steps}

-- Agents and shells answer at once, and nothing fails.
abbrev calm : World
calm = record {
  State = ℕ;
  run_agent = λ state attempt command n. (ok "A plan.", n);
  run_shell = λ state command n. (not_run (broken "unused"), n);
  read_human = λ state task targets n. (err "unused", n);
  now = λ n. "";
  init_fails = λ n. false;
  write_fails = λ file n. false;
  to_yaml_error = λ r. none;
  reread = λ r. ok r;
  read_dir_error = λ n. none;
  read_error = λ file n. none;
  no_file = λ file. "No such file";
  listing = λ disk n. disk;
  from_str = λ bytes. err "unused";
  system_prompt = λ a. "You plan.";
}

abbrev calls : Calls calm
calls = record {
  call_api = λ step model system user n. (ok "Reply.", n);
  run_command = λ step command n. (ok "src", n);
  poster = λ target number body n. (ok tt, n);
  opens_log = λ step n. true;
  human_channel = λ n. false;
  spawn = λ step agent n. (none, n);
  send = λ to content n. (ok tt, n);
  events = λ step n. agent_said "noah" (result "DONE") ∷ [];
  settled = λ step n. n;
  codec = record { encode = λ m. ok m.content; decode = λ text. err "unused" };
  ulid = λ n. ("01", n);
  time = λ n. ("now", n);
  write = λ text n. (none, n);
  flush = λ n. (none, n);
}

abbrev noah : Agent
noah = record {
  id = "noah";
  name = "Noah";
  title = none;
  model = "m";
  backend = claude_cli;
  extra_args = [];
}

abbrev blank : Step
blank = record {
  id = "";
  agent = "";
  role = none;
  task = none;
  run = none;
  input = [];
  needs = [];
  model = none;
  backend = none;
  print_output = false;
  post_comment = none;
  agents = [];
  max_turns = none;
  turn_timeout = none;
  extra_args = [];
}

abbrev list_files : Step
list_files = record blank { id = "list"; run = some "ls" }

abbrev plan : Step
plan = record blank { id = "plan"; agent = "noah"; input = "list" ∷ []; needs = "list" ∷ [] }

abbrev talk : Step
talk = record blank { id = "talk"; agents = "noah" ∷ []; input = "plan" ∷ []; needs = "plan" ∷ [] }

abbrev flow : FlowConfig
flow = record {
  version = "1";
  name = "test";
  prompt = none;
  defaults = record { model = "m"; backend = api };
  roles = [];
  steps = talk ∷ plan ∷ list_files ∷ [];
  stack = record { backend = "local"; path = "" };
}

abbrev order : List Step
order = list_files ∷ plan ∷ talk ∷ []

abbrev context : Context
context = record { run_id = "test-1"; task = "Do it."; template_vars = [] }

calm-ListsAll : ListsAll calm
calm-ListsAll t disk n = ((λ m. m), λ m. m)

abbrev stored_contents : Disk → List String
stored_contents [] = []
stored_contents (s ∷ ss) = s.content ∷ stored_contents ss

abbrev contents : RunEnd → List String
contents (done results disk) = stored_contents disk
contents (aborted e disk) = []
contents (stalled disk) = []

-- The files, the plan and the transcript of the conversation.
flow_runs :
    contents (run_steps calm calls context order (noah ∷ []) [] 0)
    ≡ "src" ∷ "A plan."
      ∷ "# Conversation transcript\n\nParticipants: noah\n\n## noah\n\nDONE\n\n---\nTermination: convergence\n"
      ∷ []
unfolding run_steps str_eq overwrite converse handle on_event relay_fragment relay_result converged
    broadcast deliver step_content_filename
flow_runs = refl

abbrev after_list : Disk
after_list =
    record {
      number = 1;
      entry = record {
        step_id = "list";
        kind = "shell";
        agent = none;
        model_requested = none;
        model_actual = none;
        backend = "shell";
        exit_code = pos 0;
        input_steps = [];
        output_file = "01-list.txt";
        participants = [];
        turns = none;
        messages = none;
        terminated_by = none;
        graph_decision = none;
      };
      content = "src";
    }
    ∷ []

build_user_prompt-Carries_example :
    (text : String) × (rest : String) × (build_user_prompt calm "Do it." plan after_list 0
      ≡ ok text)
    × Tasked "Do it." plan.task rest text
    × EndsWithInputs after_list plan.input rest
build_user_prompt-Carries_example =
    build_user_prompt-Carries calm "Do it." plan after_list 0 calm-ListsAll (refl, λ file. refl)
      (refl, tt) (inl refl, tt)

abbrev levi : Agent
levi = record noah { id = "levi"; name = "Levi" }

abbrev pair : Router
pair = record { agents = "noah" ∷ "levi" ∷ []; human_input = true; config = default_config }

abbrev exchange : List Event
exchange =
    agent_said "noah" (result "First.")
    ∷ human_said "Go on."
    ∷ agent_said "levi" (tool_use "bash")
    ∷ agent_said "levi" (result "Second.")
    ∷ agents_done
    ∷ []

pair-Distinct : Distinct (agent_ids (noah ∷ levi ∷ []))
unfolding contains str_eq
pair-Distinct = (not-contains "noah" ("levi" ∷ []) refl, ((λ h. h), tt))

total_turns-run_example :
    total_turns
      (stats (run (transports calm calls) pair (some "Talk.") exchange 0).1 (noah ∷ levi ∷ []))
    ≡ results_in (run (transports calm calls) pair (some "Talk.") exchange 0).1 % 2 ^ 32
total_turns-run_example =
    total_turns-run (transports calm calls) pair (noah ∷ levi ∷ []) (some "Talk.") exchange 0
      pair-Distinct (inl refl, (tt, (inr (inl refl), (inr (inl refl), (tt, tt)))))
