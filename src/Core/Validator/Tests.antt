-- ===== src/Core/Validator/Tests.antt =====
-- The validators on a flow of four states in the style of docs/graph-flows.md.
use kuromaku.Prelude.{
  String, ◌≡◌, refl, ◌↔◌, true, none, some, List, [], ◌∷◌, Member, str_eq, contains, lookup,
}
use kuromaku.Prelude.Text.{is_blank, sort}
use kuromaku.Prelude.Result.{ok, err}
use kuromaku.Core.GraphFlow.{
  GraphFlow, GraphState, SelectEntry, single, list, deserialize_entry, serialize_entry,
}
use kuromaku.Core.GraphFlow.Laws.{deserialize-serialize}
use kuromaku.Core.Validator.{
  GraphValidationReport, validate_graph_flow, validate_graph_reachability, check_states,
  check_targets, validate_state_semantics, check_agent, check_shell, check_final,
  check_shell_entries, check_reasons, kinds, visited_states, walk, visit_targets, dead_ends,
  undescribed_finals, unvisited, dead_end, unreachable, shell_self_loop,
}
use kuromaku.Core.Validator.Spec.{IsWellFormed}
use kuromaku.Core.Validator.Structure.{validate_iff}
use kuromaku.Core.Validator.Reachability.{Reaches, visited-Reaches}
use kuromaku.Core.Validator.Report.{IsAccurate, reachability_report}

abbrev pub blank_state : GraphState
blank_state = record {
  role = none;
  task = none;
  task_file = none;
  run = none;
  final_desc = none;
  human = none;
  select = none;
  extra_args = [];
}

abbrev pub to : String → String → SelectEntry
to t r = record { target = t; reason = some (single r) }

abbrev pub work_state : GraphState
work_state = record blank_state {
  role = some "developer";
  select = some (to "check" "Ready." ∷ to "ask" "Unclear." ∷ []);
}

abbrev pub check_state : GraphState
check_state = record blank_state {
  run = some "just test";
  select = some (to "done" "pass" ∷ to "work" "fail" ∷ []);
}

abbrev pub ask_state : GraphState
ask_state = record blank_state { human = some true; select = some (to "work" "Answered." ∷ []) }

abbrev pub done_state : GraphState
done_state = record blank_state { final_desc = some "Shipped." }

abbrev pub sample : GraphFlow
sample = record {
  version = "1";
  name = "ship";
  prompt = none;
  prompt_file = none;
  initial = "work";
  graph =
      ("work", work_state)
      ∷ ("check", check_state)
      ∷ ("ask", ask_state)
      ∷ ("done", done_state)
      ∷ [];
}

pub sample_accepted : validate_graph_flow sample ≡ ok tt
unfolding validate_graph_flow str_eq contains check_states check_targets validate_state_semantics
    kinds check_agent check_shell check_final check_shell_entries check_reasons is_blank
sample_accepted = refl

deserialize-serialize_example :
    deserialize_entry (serialize_entry (record { target = "a"; reason = some (list ("b" ∷ [])) }))
    ≡ ok (record { target = "a"; reason = some (list ("b" ∷ [])) })
deserialize-serialize_example =
    deserialize-serialize (record { target = "a"; reason = some (list ("b" ∷ [])) })

validate_iff_example : (validate_graph_flow sample ≡ ok tt) ↔ IsWellFormed sample
validate_iff_example = validate_iff sample

reachability_report_example :
    (r : GraphValidationReport) × (validate_graph_reachability sample ≡ some r)
    × IsAccurate sample r
reachability_report_example = reachability_report sample

visited-Reaches_example :
    (v : List String) × (visited_states sample ≡ some v)
    × ((k : String) → Member k v ↔ Reaches sample.graph "work" k)
visited-Reaches_example = visited-Reaches sample

-- A state that nothing leads to, and that leads nowhere.
abbrev stray : GraphFlow
stray = record sample { graph = ("stray", blank_state) ∷ sample.graph }

stray_reported :
    validate_graph_reachability stray
    ≡ some (record { errors = dead_end "stray" ∷ []; warnings = unreachable "stray" "work" ∷ [] })
unfolding validate_graph_reachability visited_states walk visit_targets lookup contains str_eq
    dead_ends undescribed_finals unvisited sort is_blank
stray_reported = refl

abbrev looping : GraphFlow
looping = record sample {
  graph =
      ("check", record check_state { select = some (to "check" "pass" ∷ to "work" "fail" ∷ []) })
      ∷ ("work", work_state)
      ∷ ("ask", ask_state)
      ∷ [];
}

looping_rejected : validate_graph_flow looping ≡ err (shell_self_loop "check" "check")
unfolding validate_graph_flow str_eq contains check_states check_targets validate_state_semantics
    kinds check_shell check_shell_entries is_blank
looping_rejected = refl
