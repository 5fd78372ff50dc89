-- ===== src/Core/Validator/Structure.antt =====
-- The structural check of src/core/validator.rs against the description of well-formed flows.
mod Targets
mod Shapes
use kuromaku.Prelude.{
  String, ◌≡◌, refl, ap, ◌∙◌, ◌↔◌, inl, inr, Bool, true, false, some, none, Option-cases,
  Bool-cases, List, [], ◌∷◌, Assoc, keys, All, contains, contains-Member, Member-contains, str_eq,
  str_eq_refl, str_eq_iff, arith,
}
use kuromaku.Prelude.Result.{ok, err, ◌>>=◌, >>=-first}
use kuromaku.Core.GraphFlow.{GraphFlow, GraphState, is_human}
use kuromaku.Core.Validator.{
  kinds, require, entries_of, check_shell, check_final, check_agent, check_targets, check_states,
  validate_state_semantics, validate_graph_flow,
}
use kuromaku.Core.Validator.Spec.{
  IsShellState, IsFinalState, IsHumanState, IsAgentState, HasShape, IsWellFormedState, IsWellFormed,
}
use Targets.{check_targets-ok_iff}
use Shapes.{
  Pair, shell_entries_sound, two_entries_complete, check_shell_sound, check_shell_complete,
  check_final_sound, check_final_complete, check_agent_sound, check_agent_complete,
}

shell_state :
    (id : String) (s : GraphState) {c : String}
    → s.run ≡ some c
    → s.final_desc ≡ none
    → is_human s ≡ false
    → check_shell id s ≡ ok tt
    → IsShellState id s
shell_state id s runs not_final not_human h =
    let (c, runs, shown, no_role, no_task, no_file, es, listed, checked) =
      check_shell_sound id s h in
    let (a, b, two, pair) = shell_entries_sound id es checked in
    record {
      command = c;
      runs = runs;
      command_shown = shown;
      not_final = not_final;
      not_human = not_human;
      no_role = no_role;
      no_task = no_task;
      no_task_file = no_file;
      routes = record {
        first = a;
        second = b;
        listed = listed ∙ ap some two;
        outcomes = pair.0;
        first_leaves = pair.1;
        second_leaves = pair.2;
      };
    }

final_state :
    (id : String) (s : GraphState)
    → s.run ≡ none
    → is_human s ≡ false
    → check_final id s ≡ ok tt
    → IsFinalState s
final_state id s not_shell not_human h =
    let (d, ends, described, no_role, no_task, no_next) = check_final_sound id s h in
    record {
      description = d;
      ends = ends;
      described = described;
      not_shell = not_shell;
      not_human = not_human;
      no_role = no_role;
      no_task = no_task;
      no_next = no_next;
    }

semantics_sound :
    (id : String) (s : GraphState) → validate_state_semantics id s ≡ ok tt → HasShape id s
unfolding validate_state_semantics kinds
semantics_sound id s h = elim (Option-cases s.run) [
  | inr (c, runs) ↦ inl (shell_state id s runs (ground arith) (ground arith) (ground arith))
  | inl no_run ↦ elim (Option-cases s.final_desc) [
    | inr (d, ends) ↦ inr (inl (final_state id s no_run (ground arith) (ground arith)))
    | inl no_final ↦ elim (Bool-cases (is_human s)) [
      | inl human ↦
          inr (inr (inl (record { hands_off = human; not_shell = no_run; not_final = no_final })))
      | inr agent ↦ inr (
          inr (
            inr (record {
              not_shell = no_run;
              not_final = no_final;
              not_human = agent;
              choices = check_agent_sound id s (ground arith);
            })))
    ]
  ]
]

semantics_complete :
    (id : String) (s : GraphState) → HasShape id s → validate_state_semantics id s ≡ ok tt
unfolding validate_state_semantics kinds
semantics_complete id s (inl shell) =
    let r = shell.routes in
    let entries =
      two_entries_complete id r.first r.second (r.outcomes, r.first_leaves, r.second_leaves) in
    let checked =
      check_shell_complete id s shell.command (r.first ∷ r.second ∷ []) shell.runs
        shell.command_shown shell.no_role shell.no_task shell.no_task_file r.listed entries in
    ground (arith, checked)
semantics_complete id s (inr (inl final)) =
    let checked =
      check_final_complete id s final.description final.ends final.described final.no_role
        final.no_task final.no_next in
    ground (arith, checked)
semantics_complete id s (inr (inr (inl human))) = ground arith
semantics_complete id s (inr (inr (inr agent))) =
    ground (arith, check_agent_complete id s agent.choices)

states_sound :
    (all part : Assoc GraphState) → check_states all part ≡ ok tt → All (IsWellFormedState all) part
unfolding check_states
states_sound all [] h = tt
states_sound all ((id, s) ∷ part) h =
    let (_, h', targets_ok) = >>=-first _ (check_targets all id [] (entries_of s)) h in
    let (_, rest, semantics_ok) = >>=-first _ (validate_state_semantics id s) h' in
    let (known, distinct) = (check_targets-ok_iff all id (entries_of s)).0 targets_ok in
    ((known, distinct, semantics_sound id s semantics_ok), states_sound all part rest)

states_complete :
    (all part : Assoc GraphState) → All (IsWellFormedState all) part → check_states all part ≡ ok tt
unfolding check_states
states_complete all [] h = refl
states_complete all ((id, s) ∷ part) ((known, distinct, shape), rest) =
    rw
      (
        (check_targets-ok_iff all id (entries_of s)).1 (known, distinct),
        semantics_complete id s shape,
      )
      (states_complete all part rest)

-- `validate_graph_flow` accepts a flow exactly when the flow is well formed: the version is "1", the
-- initial state and every listed target are states, no state lists a target twice, and each state is
-- a shell, final, human or agent state as `HasShape` describes them.
pub validate_iff : (g : GraphFlow) → (validate_graph_flow g ≡ ok tt) ↔ IsWellFormed g
unfolding validate_graph_flow
validate_iff g = (
  λ h. record {
    version = (str_eq_iff g.version "1").0 (ground arith);
    initial = contains-Member g.initial (keys g.graph) (ground arith);
    states = states_sound g.graph g.graph (ground arith);
  },
  λ w.
      rw (w.version, str_eq_refl "1", Member-contains g.initial (keys g.graph) w.initial)
        (states_complete g.graph g.graph w.states),
)
