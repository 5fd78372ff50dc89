-- ===== src/Runner/Graph/Tests.antt =====
-- Runs of the validators' sample flow, in a world that answers each call in one way.
use kuromaku.Prelude.{
  Member, ℕ, ◌+◌, String, ◌≡◌, refl, inl, false, Option, none, some, [], ◌∷◌, find, lookup, insert,
  contains, str_eq, All, ◌==◌, if◌then◌else◌, arith,
}
use kuromaku.Prelude.Text.{is_blank}
use kuromaku.Prelude.Number.{pos}
use kuromaku.Prelude.Result.{Result, ok, err}
use kuromaku.Core.GraphFlow.{GraphFlow}
use kuromaku.Core.Validator.Tests.{sample, sample_accepted, ask_state, to}
use kuromaku.Runner.Decision.{
  Bytes, AgentDecision, top_level_json_objects, scan, scan_byte, scan_inside, slice, take, drop,
  parse_agent_decision, try_candidates, validate_transition,
}
use kuromaku.Runner.Decision.Utf8.{encode, utf8}
use kuromaku.Runner.Graph.Model.{
  Agent, claude_cli, StepRunResult, ExecutorError, broken, RunError, executor_failed, exited, World,
  Setup, HumanHandoffPolicy, pause, inline, GraphRunOutcome, final, Driver,
}
use kuromaku.Runner.Graph.Shell.{
  shell_result, shell_record, shell_output, entry_for, finish_shell, run_shell_state,
}
use kuromaku.Runner.Graph.Prompt.{build_state_command}
use kuromaku.Runner.Graph.Ask.{run_state_via_executor, judge, attempts}
use kuromaku.Runner.Graph.Disk.{write_run_step, overwrite, same_files}
use kuromaku.Runner.Graph.Working.{
  working_state, agent_state, shell_state, ask_agent, prior_context, record_decision, fail,
  agent_result, agent_record,
}
use kuromaku.Runner.Graph.Drive.{run_graph_flow, drive, advance}
use kuromaku.Runner.Graph.Drive.Calls.{IsStructural, attempts-decision}
use kuromaku.Runner.Graph.Drive.Ends.{run_graph_flow_ends}
use kuromaku.Runner.Graph.Drive.Caps.{KeepsCaps, run_graph_flow-KeepsCaps}
use kuromaku.Runner.Graph.Drive.Trace.{Followed, run_graph_flow-Followed}
use kuromaku.Runner.Graph.Drive.Validated.{IsSupplied, run_graph_flow-validated}
use kuromaku.Runner.Graph.Drive.Endless.{run_graph_flow_endless}

abbrev check : AgentDecision
check = record { transition = "check"; reason = "Ready." }

abbrev decode : Bytes → Result String AgentDecision
decode (b ∷ c ∷ rest) = if c == b'c' then ok check else err "no decision"
decode _ = err "no block"

-- The agents answer with `answer`, the commands pass, and a person types a line.
abbrev world : Result ExecutorError String → World
world answer = record {
  State = ℕ;
  run_agent = λ state attempt command n. (answer, n + 1);
  run_shell = λ state command n. (exited "ok" "" (pos 0), n + 1);
  read_human = λ state task targets n. (ok "Go on.", n + 1);
  now = λ n. "2026-01-01";
  init_fails = λ n. false;
  write_fails = λ file n. false;
  to_yaml_error = λ r. none;
  reread = λ r. ok r;
  read_dir_error = λ n. none;
  read_error = λ file n. none;
  no_file = λ file. "No such file";
  listing = λ disk n. disk;
  from_str = decode;
  system_prompt = λ agent. "";
}

abbrev developer : Agent
developer = record {
  id = "dev";
  name = "developer";
  title = none;
  model = "opus";
  backend = claude_cli;
  extra_args = [];
}

abbrev setup : HumanHandoffPolicy → GraphFlow → Setup
setup policy flow = record {
  graph = flow;
  agents_by_id = ("dev", developer) ∷ [];
  state_to_agent = ("work", "dev") ∷ [];
  run_id = "r1";
  task = "Ship it.";
  policy = policy;
}

run_graph_flow_ends_example :
    (r : Result RunError GraphRunOutcome) × (d : Driver) × (n : ℕ) × (run_graph_flow
        (world (ok "{c}"))
        (setup pause sample)
        33
        none
        []
        0
      ≡ some (r, d, n))
run_graph_flow_ends_example =
    run_graph_flow_ends (world (ok "{c}")) (setup pause sample) 33 none [] 0 refl (omega arith)

-- The driver and the counter of a run, for the equations below.
abbrev driver_of : Option (Result RunError GraphRunOutcome × Driver × ℕ) → Driver
driver_of none = record {
  current = "";
  step_num = 0;
  skip_pause_once = false;
  human_input_step_id = none;
  prior_state = none;
  visits = [];
  results = [];
  disk = [];
}
driver_of (some (r, d, n)) = d

abbrev blank_driver : Driver
blank_driver = driver_of none

abbrev decided : StepRunResult
decided = agent_result "r1" developer (
    agent_record (record blank_driver { current = "work"; step_num = 1 })
      (to "check" "Ready." ∷ to "ask" "Unclear." ∷ []) developer check)

abbrev passed : StepRunResult
passed = shell_result "r1" (shell_record "check" 2 (pos 0) "done")

abbrev shipped : GraphRunOutcome
shipped = final (decided ∷ passed ∷ []) "done"

shipped_run :
    run_graph_flow (world (ok "{c}")) (setup pause sample) 33 none [] 0
    ≡ some (
      ok shipped,
      driver_of (run_graph_flow (world (ok "{c}")) (setup pause sample) 33 none [] 0),
      2,
    )
unfolding run_graph_flow drive advance working_state agent_state shell_state ask_agent prior_context
    record_decision attempts run_state_via_executor judge build_state_command run_shell_state
    finish_shell shell_output entry_for write_run_step overwrite same_files lookup insert find
    str_eq contains is_blank parse_agent_decision try_candidates validate_transition
    top_level_json_objects scan scan_byte scan_inside slice take drop encode utf8 fail
shipped_run = refl

run_graph_flow-KeepsCaps_example : KeepsCaps (decided ∷ passed ∷ [])
run_graph_flow-KeepsCaps_example =
    run_graph_flow-KeepsCaps (world (ok "{c}")) (setup pause sample) 33 none [] 0 2 shipped
      (driver_of (run_graph_flow (world (ok "{c}")) (setup pause sample) 33 none [] 0)) shipped_run

run_graph_flow-Followed_example : Followed (setup pause sample) "work" shipped
run_graph_flow-Followed_example =
    run_graph_flow-Followed (world (ok "{c}")) (setup pause sample) 33 none [] 0 2 shipped
      (driver_of (run_graph_flow (world (ok "{c}")) (setup pause sample) 33 none [] 0)) shipped_run

failed_run :
    run_graph_flow (world (err (broken "no such program"))) (setup pause sample) 33 none [] 0
    ≡ some (
      err (executor_failed "work" (broken "no such program")),
      driver_of (
          run_graph_flow
            (world (err (broken "no such program")))
            (setup pause sample)
            33
            none
            []
            0),
      1,
    )
unfolding run_graph_flow drive advance working_state agent_state ask_agent prior_context attempts
    run_state_via_executor build_state_command lookup insert str_eq fail
failed_run = refl

sample-IsSupplied : All (IsSupplied (setup pause sample)) sample.graph
unfolding lookup str_eq
sample-IsSupplied = (
  (λ on. (λ e. cc e, λ human shell. ("dev", refl, developer, refl))),
  (
    (λ on. (λ e. cc e, λ human shell. absurd (cc shell))),
    ((λ on. (λ e. cc e, λ human shell. absurd (cc human))), ((λ on. absurd (cc on)), tt)),
  ),
)

run_graph_flow-validated_example :
    ¬ IsStructural (executor_failed "work" (broken "no such program"))
run_graph_flow-validated_example =
    run_graph_flow-validated (world (err (broken "no such program"))) (setup pause sample) 33 none
      [] 0 1 (executor_failed "work" (broken "no such program"))
      (driver_of
        (run_graph_flow (world (err (broken "no such program"))) (setup pause sample) 33 none [] 0))
      sample_accepted sample-IsSupplied (inl refl) failed_run

-- A flow whose human state comes first and leads back to itself.
abbrev asking : GraphFlow
asking = record sample {
  initial = "ask";
  graph = ("ask", record ask_state { select = some (to "ask" "Again." ∷ []) }) ∷ [];
}

asking_found :
    lookup "ask" asking.graph ≡ some (record ask_state { select = some (to "ask" "Again." ∷ []) })
unfolding lookup str_eq
asking_found = refl

run_graph_flow_endless_example :
    run_graph_flow (world (ok "{c}")) (setup inline asking) 1000 none [] 0 ≡ none
run_graph_flow_endless_example =
    run_graph_flow_endless (world (ok "{c}")) (setup inline asking)
      (record ask_state { select = some (to "ask" "Again." ∷ []) }) (to "ask" "Again.") 1000 [] 0
      (record {
        reads = λ id task targets n. ("Go on.", refl);
        starts = λ n. refl;
        writes = λ file n. refl;
        encodes = λ r. refl;
      })
      refl asking_found refl refl refl refl

asked_once :
    attempts (world (ok "{c}")) "work" developer "Choose." [] ("check" ∷ "ask" ∷ []) 2 0 none 0
    ≡ (ok (check, "{c}"), 1)
unfolding attempts run_state_via_executor judge build_state_command parse_agent_decision
    try_candidates validate_transition top_level_json_objects scan scan_byte scan_inside slice take
    drop encode utf8 contains str_eq
asked_once = refl

attempts-decision_example :
    (parse_agent_decision decode (utf8 "{c}") ≡ some (ok check))
    × Member check.transition ("check" ∷ "ask" ∷ [])
attempts-decision_example =
    attempts-decision (world (ok "{c}")) "work" developer [] ("check" ∷ "ask" ∷ []) "Choose." "{c}"
      check 0 1 asked_once
