-- ===== src/Core/Validator.antt =====
-- src/core/validator.rs: the structural check of a graph flow, and the walk that finds dead ends
-- and unreachable states. A message is a constructor with the values that its text shows.
pub mod Tests
pub mod Spec
pub mod Structure
pub mod Walk
pub mod Reachability
pub mod Report
use kuromaku.Prelude.{
  ℕ, zero, suc, ◌+◌, String, Bool, true, false, not, ◌&&◌, ◌||◌, Option, none, some, List, [], ◌∷◌,
  ◌++◌, map, Assoc, keys, lookup, contains, length, is_empty, ltb, ◌==◌, str_eq, if◌then◌else◌,
}
use kuromaku.Prelude.Text.{is_blank, sort}
use kuromaku.Prelude.Result.{Result, ok, err, ◌>>=◌}
use kuromaku.Core.GraphFlow.{
  GraphFlow, GraphState, SelectEntry, display, is_some, is_final, is_human, is_shell, is_terminal,
}

pub data ValidationError : Type 0 where
  unsupported_version : (found : String) → ValidationError
  unknown_initial : (initial : String) (known : List String) → ValidationError
  unknown_target : (id target : String) (known : List String) → ValidationError
  duplicate_target : (id target : String) → ValidationError
  conflicting_fields : (id : String) (kinds : List String) → ValidationError
  empty_command : (id : String) → ValidationError
  shell_with_role : (id : String) → ValidationError
  shell_with_task : (id : String) → ValidationError
  shell_without_next : (id : String) → ValidationError
  shell_entry_count : (id : String) (count : ℕ) → ValidationError
  shell_reason : (id target : String) → ValidationError
  shell_self_loop : (id target : String) → ValidationError
  shell_without_pass : (id : String) → ValidationError
  shell_without_fail : (id : String) → ValidationError
  empty_description : (id : String) → ValidationError
  final_with_fields : (id : String) → ValidationError
  too_few_entries : (id : String) (count : ℕ) → ValidationError
  entry_without_reason : (id target : String) → ValidationError

abbrev pub Check : Type 0
Check = Result ValidationError (Unit {0})

abbrev pub require : Bool → ValidationError → Check
require true e = ok tt
require false e = err e

unfoldable pub sorted_state_ids : Assoc GraphState → List String
unfolding sort
sorted_state_ids states = sort (keys states)

abbrev pub has_key : Assoc GraphState → String → Bool
has_key states id = contains id (keys states)

-- The targets of one state: each is a state, and none is listed twice.
unfoldable pub check_targets : Assoc GraphState → String → List String → List SelectEntry → Check
check_targets states id seen [] = ok tt
check_targets states id seen (e ∷ es) =
    let rest = check_targets states id (e.target ∷ seen) es in
    if not (has_key states e.target)
    then err (unknown_target id e.target (sorted_state_ids states))
    else if contains e.target seen
    then err (duplicate_target id e.target)
    else rest

-- `entry.reason.as_ref().map(|r| r.display()).unwrap_or_default()`.
unfoldable pub reason_text : SelectEntry → String
unfolding display
reason_text e = elim e.reason [ none ↦ "" | some r ↦ display r ]

abbrev pub when : Bool → String → List String
when b k = if b then k ∷ [] else []

unfoldable pub kinds : GraphState → List String
kinds s = when (is_shell s) "run" ++ when (is_final s) "final" ++ when (is_human s) "human"

-- The loop over the two entries of a shell state, with the flags `has_pass` and `has_fail`.
unfoldable pub shell_flags :
    String → Bool → Bool → List SelectEntry → Result ValidationError (Bool × Bool)
unfolding reason_text
shell_flags id has_pass has_fail [] = ok (has_pass, has_fail)
shell_flags id has_pass has_fail (e ∷ es) =
    let pass = str_eq (reason_text e) "pass" in
    let fail = str_eq (reason_text e) "fail" in
    let rest = shell_flags id (has_pass || pass) (has_fail || (not pass && fail)) es in
    if not (pass || fail)
    then err (shell_reason id e.target)
    else if str_eq e.target id
    then err (shell_self_loop id e.target)
    else rest

unfoldable pub check_shell_entries : String → List SelectEntry → Check
unfolding shell_flags
check_shell_entries id entries = do
  _ ← require (length entries == 2) (shell_entry_count id (length entries))
  flags ← shell_flags id false false entries
  _ ← require flags.0 (shell_without_pass id)
  require flags.1 (shell_without_fail id)

abbrev pub is_blank_option : Option String → Bool
is_blank_option none = true
is_blank_option (some s) = is_blank s

unfoldable pub check_shell : String → GraphState → Check
check_shell id s = do
  _ ← require (not (is_blank_option s.run)) (empty_command id)
  _ ← require (not (is_some s.role)) (shell_with_role id)
  _ ← require (not (is_some s.task || is_some s.task_file)) (shell_with_task id)
  elim s.select [
    | none ↦ err (shell_without_next id)
    | some entries ↦ check_shell_entries id entries
  ]

unfoldable pub check_final : String → GraphState → Check
check_final id s = do
  _ ← require (not (is_blank_option s.final_desc)) (empty_description id)
  require (not (is_some s.role || is_some s.task || is_some s.select)) (final_with_fields id)

unfoldable pub check_reasons : String → List SelectEntry → Check
unfolding display
check_reasons id [] = ok tt
check_reasons id (e ∷ es) =
    let rest = check_reasons id es in
    elim e.reason [
      | none ↦ err (entry_without_reason id e.target)
      | some r ↦ if is_blank (display r) then err (entry_without_reason id e.target) else rest
    ]

unfoldable pub check_agent : String → GraphState → Check
check_agent id s = elim s.select [
  | none ↦ ok tt
  | some entries ↦
      if ltb (length entries) 2
      then err (too_few_entries id (length entries))
      else check_reasons id entries
]

unfoldable pub validate_state_semantics : String → GraphState → Check
validate_state_semantics id s =
    if ltb 1 (length (kinds s))
    then err (conflicting_fields id (kinds s))
    else if is_shell s
    then check_shell id s
    else if is_final s
    then check_final id s
    else if is_human s
    then ok tt
    else check_agent id s

abbrev pub entries_of : GraphState → List SelectEntry
entries_of s = elim s.select [ none ↦ [] | some es ↦ es ]

unfoldable pub check_states : Assoc GraphState → Assoc GraphState → Check
check_states all [] = ok tt
check_states all ((id, s) ∷ rest) = do
  _ ← check_targets all id [] (entries_of s)
  _ ← validate_state_semantics id s
  check_states all rest

unfoldable pub validate_graph_flow : GraphFlow → Check
validate_graph_flow g = do
  _ ← require (str_eq g.version "1") (unsupported_version g.version)
  _ ← require (has_key g.graph g.initial) (unknown_initial g.initial (sorted_state_ids g.graph))
  check_states g.graph g.graph

-- The walk from `initial`. `frontier` is the stack, its top first, and `visited` the set.
abbrev pub Walk : Type 0
Walk = List String × List String

-- The inner loop: each target that is new is marked and pushed.
unfoldable pub visit_targets : List SelectEntry → Walk → Walk
visit_targets [] (visited, frontier) = (visited, frontier)
visit_targets (e ∷ es) (visited, frontier) = visit_targets es (
    if contains e.target visited
    then (visited, frontier)
    else (e.target ∷ visited, e.target ∷ frontier))

abbrev pub entries_at : Assoc GraphState → String → List SelectEntry
entries_at states id = elim (lookup id states) [ none ↦ [] | some s ↦ entries_of s ]

-- The outer loop; `none` when the fuel ran out before the frontier did.
unfoldable pub walk : Assoc GraphState → ℕ → Walk → Option (List String)
walk states fuel (visited, []) = some visited
walk states zero (visited, id ∷ frontier) = none
walk states (suc fuel) (visited, id ∷ frontier) =
    walk states fuel (visit_targets (entries_at states id) (visited, frontier))

abbrev pub all_targets : Assoc GraphState → List String
all_targets [] = []
all_targets ((id, s) ∷ m) = map (λ e. e.target) (entries_of s) ++ all_targets m

-- One round for `initial` and for each target at most, which `walk_total` shows to be enough.
unfoldable pub visited_states : GraphFlow → Option (List String)
visited_states g =
    walk g.graph (suc (length (all_targets g.graph))) (g.initial ∷ [], g.initial ∷ [])

pub data Finding : Type 0 where
  dead_end : (id : String) → Finding
  undescribed : (id : String) → Finding
  unreachable : (id initial : String) → Finding

pub record GraphValidationReport : Type 0 where
  pub errors : List Finding
  pub warnings : List Finding

abbrev pub is_ok : GraphValidationReport → Bool
is_ok r = is_empty r.errors

unfoldable pub dead_ends : Assoc GraphState → List Finding
dead_ends [] = []
dead_ends ((id, s) ∷ m) =
    let rest = dead_ends m in
    if is_empty (entries_of s) && not (is_terminal s) then dead_end id ∷ rest else rest

unfoldable pub undescribed_finals : Assoc GraphState → List Finding
undescribed_finals [] = []
undescribed_finals ((id, s) ∷ m) =
    let rest = undescribed_finals m in
    if is_final s && is_blank_option s.final_desc then undescribed id ∷ rest else rest

-- `filter(|k| !visited.contains(k))`.
unfoldable pub unvisited : List String → List String → List String
unvisited visited [] = []
unvisited visited (k ∷ ks) =
    let rest = unvisited visited ks in if contains k visited then rest else k ∷ rest

abbrev pub unreachable_in : GraphFlow → List String → List Finding
unreachable_in g visited =
    map (λ id. unreachable id g.initial) (sort (unvisited visited (keys g.graph)))

unfoldable pub validate_graph_reachability : GraphFlow → Option GraphValidationReport
validate_graph_reachability g = elim (visited_states g) [
  | none ↦ none
  | some visited ↦ some (record {
    errors = dead_ends g.graph;
    warnings = undescribed_finals g.graph ++ unreachable_in g visited;
  })
]
