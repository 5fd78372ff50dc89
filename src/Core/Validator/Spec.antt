-- ===== src/Core/Validator/Spec.antt =====
-- What a graph flow has to look like, without the order of the checks in src/core/validator.rs.
use kuromaku.Prelude.{
  String, ◌≤◌, ◌≡◌, ◌≢◌, ◌⊎◌, true, false, none, some, List, [], ◌∷◌, map, Assoc, keys, length, All,
  Member, Distinct,
}
use kuromaku.Prelude.Text.{is_blank}
use kuromaku.Core.GraphFlow.{GraphFlow, GraphState, SelectEntry, SelectReason, display, is_human}
use kuromaku.Core.Validator.{reason_text, entries_of}

abbrev pub targets : List SelectEntry → List String
targets = map (λ e. e.target)

abbrev pub Known : Assoc GraphState → List SelectEntry → Type 0
Known states = All (λ e. Member e.target (keys states))

abbrev pub Fresh : List String → List SelectEntry → Type 0
Fresh seen = All (λ e. ¬ Member e.target seen)

-- One entry for each outcome of the command, in either order, and none back to the state itself.
pub record RoutesExitCode (id : String) (s : GraphState) : Type 0 where
  pub first : SelectEntry
  pub second : SelectEntry
  pub listed : s.select ≡ some (first ∷ second ∷ [])
  pub outcomes :
      (reason_text first ≡ "pass") × (reason_text second ≡ "fail")
      ⊎ (reason_text first ≡ "fail") × (reason_text second ≡ "pass")
  pub first_leaves : first.target ≢ id
  pub second_leaves : second.target ≢ id

-- A state that runs a command.
pub record IsShellState (id : String) (s : GraphState) : Type 0 where
  pub command : String
  pub runs : s.run ≡ some command
  pub command_shown : is_blank command ≡ false
  pub not_final : s.final_desc ≡ none
  pub not_human : is_human s ≡ false
  pub no_role : s.role ≡ none
  pub no_task : s.task ≡ none
  pub no_task_file : s.task_file ≡ none
  pub routes : RoutesExitCode id s

-- A state that ends the run.
pub record IsFinalState (s : GraphState) : Type 0 where
  pub description : String
  pub ends : s.final_desc ≡ some description
  pub described : is_blank description ≡ false
  pub not_shell : s.run ≡ none
  pub not_human : is_human s ≡ false
  pub no_role : s.role ≡ none
  pub no_task : s.task ≡ none
  pub no_next : s.select ≡ none

-- A state that hands the run to a person.
pub record IsHumanState (s : GraphState) : Type 0 where
  pub hands_off : is_human s ≡ true
  pub not_shell : s.run ≡ none
  pub not_final : s.final_desc ≡ none

abbrev pub IsReasoned : SelectEntry → Type 0
IsReasoned e = (r : SelectReason) × (e.reason ≡ some r) × (is_blank (display r) ≡ false)

-- A state that asks an agent: with no list, or with a choice of at least two reasoned targets.
pub record IsAgentState (s : GraphState) : Type 0 where
  pub not_shell : s.run ≡ none
  pub not_final : s.final_desc ≡ none
  pub not_human : is_human s ≡ false
  pub choices :
      (s.select ≡ none)
      ⊎ ((es : List SelectEntry) × (s.select ≡ some es) × (2 ≤ length es) × All IsReasoned es)

abbrev pub HasShape : String → GraphState → Type 0
HasShape id s = IsShellState id s ⊎ IsFinalState s ⊎ IsHumanState s ⊎ IsAgentState s

-- A state of the graph `states`, with its id.
abbrev pub IsWellFormedState : Assoc GraphState → String × GraphState → Type 0
IsWellFormedState states (id, s) =
    Known states (entries_of s) × Distinct (targets (entries_of s)) × HasShape id s

pub record IsWellFormed (g : GraphFlow) : Type 0 where
  pub version : g.version ≡ "1"
  pub initial : Member g.initial (keys g.graph)
  pub states : All (IsWellFormedState g.graph) g.graph
