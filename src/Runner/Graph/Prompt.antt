-- ===== src/Runner/Graph/Prompt.antt =====
-- The texts that the driver writes: prompts, the menu of transitions, and the shell artifact.
use kuromaku.Prelude.{
  String, Bool, true, false, Option, none, some, List, [], ◌∷◌, map, lookup, if◌then◌else◌,
}
use kuromaku.Prelude.Text.{◌<>◌, join, is_empty, ends_with_newline}
use kuromaku.Prelude.Number.{ℤ, show_int}
use kuromaku.Prelude.Result.{Result, ok, err}
use kuromaku.Core.GraphFlow.{GraphState, SelectEntry}
use kuromaku.Core.Validator.{reason_text}
use kuromaku.Runner.Decision.{DecisionParseError, no_json_object, invalid_json}
use kuromaku.Runner.Graph.Model.{
  Backend, api, claude_cli, codex, ollama, yaml_name, BackendArgs, Agent, Command, claude_command,
  codex_command, ollama_command, RunError, graph_runtime, unsupported_backend,
}

unfoldable pub menu_lines : List SelectEntry → String
unfolding reason_text
menu_lines [] = ""
menu_lines (e ∷ es) = "- `" <> e.target <> "`: " <> reason_text e <> "\n" <> menu_lines es

unfoldable pub build_menu : String → List SelectEntry → String
unfolding menu_lines
build_menu state_id entries =
    "You are at state `"
    <> state_id
    <> "`. Complete the task above as your main reply -- produce the full artifact (design plan, review, code summary, etc.) so the next agent in the graph can build on your work. After the artifact, end your reply with a single JSON object choosing one transition:\n\n"
    <> "{\"transition\": \"<target-state>\", \"reason\": \"<one to two sentences explaining why>\"}\n\n"
    <> "Available transitions:\n"
    <> menu_lines entries
    <> "\n"
    <> "The JSON object must appear exactly once, on its own line at the end of your reply. Pick one of the transitions listed -- do not invent new ones."

unfoldable pub parse_error_text : DecisionParseError String → String
parse_error_text no_json_object = "no JSON object found in agent output"
parse_error_text (invalid_json e) = "failed to decode agent decision: " <> e

unfoldable pub malformed_retry_note : DecisionParseError String → String
unfolding parse_error_text
malformed_retry_note e =
    "\n\nYour previous reply was malformed and could not be parsed: "
    <> parse_error_text e
    <> ".\nReply again with a JSON object exactly as specified above. No prose, no fenced code blocks -- just the JSON."

unfoldable pub unknown_edge_retry_note : String → List String → String
unfolding join
unknown_edge_retry_note picked allowed =
    "\n\nYour previous reply chose unknown transition `"
    <> picked
    <> "`. Valid choices: "
    <> join ", " (map (λ s. "`" <> s <> "`") allowed)
    <> ". Reply again with a JSON object choosing one of the listed transitions."

-- `if !out.is_empty() { out.push_str("\n\n") }`.
unfoldable pub spaced : String → String
unfolding is_empty
spaced out = if is_empty out then out else out <> "\n\n"

unfoldable pub with_task : Option String → String → String
unfolding spaced
with_task none out = out
with_task (some t) out = spaced out <> "Your task: " <> t

unfoldable pub with_context : Option (String × String) → String → String
unfolding spaced
with_context none out = out
with_context (some (prev_id, body)) out =
    spaced out
    <> "Context from previous state '"
    <> prev_id
    <> "':\n\n--- Output from state '"
    <> prev_id
    <> "' ---\n"
    <> body
    <> "\n---\n\nIMPORTANT: The above is the artifact the previous agent produced. Read it as the input to your task. Build on it -- do not repeat or rephrase what is already covered."

unfoldable pub build_state_user_prompt :
    String → Option String → Option (String × String) → String → String
unfolding with_task with_context
build_state_user_prompt flow_prompt state_task prior_context menu =
    spaced (with_context prior_context (with_task state_task flow_prompt)) <> menu

abbrev pub same_backend : Backend → Backend → Bool
same_backend api api = true
same_backend claude_cli claude_cli = true
same_backend codex codex = true
same_backend ollama ollama = true
same_backend _ _ = false

unfoldable pub args_for : Backend → BackendArgs → List String
args_for b [] = []
args_for b ((c, args) ∷ m) = if same_backend b c then args else args_for b m

-- The state's map replaces the agent's whole map if it has any entry.
unfoldable pub resolve_state_extra_args : GraphState → Agent → Backend → List String
unfolding args_for yaml_name
resolve_state_extra_args s agent b = elim s.extra_args [
  | [] ↦ args_for b agent.extra_args
  | first ∷ rest ↦ elim (lookup (yaml_name b) (first ∷ rest)) [ none ↦ [] | some args ↦ args ]
]

unfoldable pub build_state_command :
    Backend → String → String → String → List String → String → Result RunError Command
build_state_command claude_cli model system user args state_id =
    ok (claude_command model system user args)
build_state_command codex model system user args state_id =
    ok (codex_command model system user args)
build_state_command ollama model system user args state_id =
    ok (ollama_command model ("System: " <> system <> "\n\n" <> "User: " <> user) args)
build_state_command api model system user args state_id =
    err (graph_runtime state_id unsupported_backend)

unfoldable pub newline_after : String → String
unfolding ends_with_newline
newline_after s = if ends_with_newline s then "" else "\n"

unfoldable pub render_shell_artifact : String → ℤ → String → String → String
unfolding newline_after show_int is_empty
render_shell_artifact command exit_code stdout stderr =
    "$ "
    <> command
    <> "\n"
    <> "exit code: "
    <> show_int exit_code
    <> "\n"
    <> "--- stdout ---\n"
    <> stdout
    <> newline_after stdout
    <> "--- stderr ---\n"
    <> stderr
    <> (if is_empty stderr then "" else newline_after stderr)
