-- ===== src/Dag.antt =====
-- src/dag.rs: the order in which a linear flow's steps run. A hash map is the list of its entries,
-- and a panic (a missing key, a degree below 0) or fuel that has run out is `none`.
pub mod Sorted
pub mod Spec
pub mod Collect
pub mod Dependents
pub mod Release
pub mod Kahn
pub mod Path
pub mod Cycles
pub mod Order
mod Tests
use kuromaku.Prelude.{
  ℕ, zero, suc, String, Bool, true, false, Option, none, some, List, [], ◌∷◌, ◌++◌, map, length,
  Assoc, lookup, insert, contains, str_eq, ◌==◌, if◌then◌else◌,
}
use kuromaku.Prelude.Text.{◌<>◌, join, sort}
use kuromaku.Prelude.Result.{Result, ok, err}
use kuromaku.Config.{Step, FlowConfig}

pub data DagError : Type 0 where
  cycle : String → DagError
  unknown_step : (step referenced : String) → DagError

unfoldable pub display_error : DagError → String
display_error (cycle text) = "cycle detected: " <> text
display_error (unknown_step step referenced) =
    "step '" <> step <> "' references unknown step '" <> referenced <> "'"

abbrev pub ids : List Step → List String
ids [] = []
ids (s ∷ ss) = s.id ∷ ids ss

-- The first of the step's needs that is no step's id.
unfoldable pub unknown_need : List String → String → List String → Option DagError
unfolding contains
unknown_need known step [] = none
unknown_need known step (dep ∷ deps) =
    if contains dep known then unknown_need known step deps else some (unknown_step step dep)

unfoldable pub unknown_reference : List String → List Step → Option DagError
unfolding unknown_need
unknown_reference known [] = none
unknown_reference known (s ∷ ss) = elim (unknown_need known s.id s.needs) [
  | none ↦ unknown_reference known ss
  | some e ↦ some e
]

-- `steps.iter().map(|s| (s.id, f(s))).collect()` into a map.
module _ {V : Type 0} (f : Step → V) where
  unfoldable pub collect : List Step → Assoc V → Assoc V
  unfolding insert
  collect [] m = m
  collect (s ∷ ss) m = collect ss (insert s.id (f s) m)

abbrev pub in_degree : List Step → Assoc ℕ
in_degree steps = collect (λ s. length s.needs) steps []

abbrev pub step_map : List Step → Assoc Step
step_map steps = collect (λ s. s) steps []

-- `entry(dep).or_default()` as it is read, and `get(dep)` where a missing key is passed over.
unfoldable pub texts_at : String → Assoc (List String) → List String
unfolding lookup
texts_at dep m = elim (lookup dep m) [ none ↦ [] | some steps ↦ steps ]

unfoldable pub add_dependents : String → List String → Assoc (List String) → Assoc (List String)
unfolding insert texts_at
add_dependents step [] m = m
add_dependents step (dep ∷ deps) m =
    add_dependents step deps (insert dep (texts_at dep m ++ step ∷ []) m)

unfoldable pub dependents : List Step → Assoc (List String) → Assoc (List String)
unfolding add_dependents
dependents [] m = m
dependents (s ∷ ss) m = dependents ss (add_dependents s.id s.needs m)

-- The ids whose degree is 0.
unfoldable pub free_keys : Assoc ℕ → List String
free_keys [] = []
free_keys ((k, zero) ∷ m) = k ∷ free_keys m
free_keys ((k, suc n) ∷ m) = free_keys m

-- `get_mut(dependent).unwrap()` and `*deg -= 1`.
abbrev pub decrement : Option ℕ → Option ℕ
decrement none = none
decrement (some zero) = none
decrement (some (suc n)) = some n

abbrev pub queued_if_free :
    String → ℕ → Option (List String × Assoc ℕ) → Option (List String × Assoc ℕ)
queued_if_free d n none = none
queued_if_free d n (some (next, degrees)) = some ((if n == 0 then d ∷ next else next), degrees)

-- The loop over the dependents of a step: those that are free now, and the degrees.
unfoldable pub release : List String → Assoc ℕ → Option (List String × Assoc ℕ)
unfolding insert lookup
release [] degrees = some ([], degrees)
release (d ∷ ds) degrees = elim (decrement (lookup d degrees)) [
  | none ↦ none
  | some n ↦ queued_if_free d n (release ds (insert d n degrees))
]

-- The loop over the queue.
unfoldable pub drain :
    Assoc Step
    → Assoc (List String)
    → (fuel : ℕ) → (queue : List String) → Assoc ℕ
    → (result : List Step) → Option (List Step)
unfolding lookup texts_at release sort
drain by_id deps zero queue degrees result = none
drain by_id deps (suc fuel) [] degrees result = some result
drain by_id deps (suc fuel) (id ∷ queue) degrees result = elim (lookup id by_id) [
  | none ↦ none
  | some s ↦ elim (release (texts_at id deps) degrees) [
    | none ↦ none
    | some (next, degrees') ↦ drain by_id deps fuel (queue ++ sort next) degrees' (result ++ s ∷ [])
  ]
]

unfoldable pub kahn : List Step → Option (List Step)
unfolding collect free_keys dependents sort drain
kahn steps =
    drain (step_map steps) (dependents steps []) (suc (length steps))
      (sort (free_keys (in_degree steps))) (in_degree steps) []

-- The state of the depth-first search.
pub record Search : Type 0 where
  pub visited : List String
  pub in_stack : List String
  pub path : List String

-- A cycle's text, or the state without one.
pub data Found : Type 0 where
  found : String → Found
  clear : Search → Found

-- `HashSet::remove`.
unfoldable pub remove : String → List String → List String
remove x [] = []
remove x (y ∷ ys) = if str_eq x y then remove x ys else y ∷ remove x ys

-- `Vec::pop`, as it leaves the vector.
unfoldable pub drop_last : List String → List String
drop_last [] = []
drop_last (x ∷ []) = []
drop_last (x ∷ y ∷ ys) = x ∷ drop_last (y ∷ ys)

-- `path[position(dep)..]`.
unfoldable pub from_first : String → List String → Option (List String)
from_first x [] = none
from_first x (y ∷ ys) = if str_eq y x then some (y ∷ ys) else from_first x ys

unfoldable pub close_cycle : String → List String → Option Found
unfolding from_first join
close_cycle dep path = elim (from_first dep path) [
  | none ↦ none
  | some nodes ↦ some (found (join " -> " (nodes ++ dep ∷ [])))
]

unfoldable pub enter : String → Search → Search
enter node s = record {
  visited = node ∷ s.visited;
  in_stack = node ∷ s.in_stack;
  path = s.path ++ node ∷ [];
}

unfoldable pub leave : String → Search → Search
unfolding drop_last remove
leave node s = record s { path = drop_last s.path; in_stack = remove node s.in_stack }

abbrev pub then_on : Option Found → (Search → Option Found) → Option Found
then_on none go = none
then_on (some (found text)) go = some (found text)
then_on (some (clear s)) go = go s

-- The loop over a node's needs. `visit` is the call of `dfs_find_cycle` on one of them.
unfoldable pub explore : (String → Search → Option Found) → List String → Search → Option Found
unfolding contains close_cycle
explore visit [] s = some (clear s)
explore visit (dep ∷ deps) s =
    let rest = explore visit deps in
    if contains dep s.visited
    then if contains dep s.in_stack then close_cycle dep s.path else rest s
    else then_on (visit dep s) rest

unfoldable pub dfs_find_cycle : Assoc (List String) → (fuel : ℕ) → String → Search → Option Found
unfolding explore enter leave texts_at
dfs_find_cycle graph zero node s = none
dfs_find_cycle graph (suc fuel) node s =
    then_on (explore (dfs_find_cycle graph fuel) (texts_at node graph) (enter node s))
      (λ s'. some (clear (leave node s')))

-- The loop of `find_cycle` over the steps.
unfoldable pub search_steps : Assoc (List String) → (fuel : ℕ) → List Step → Search → Option Found
unfolding dfs_find_cycle contains
search_steps graph fuel [] s = some (clear s)
search_steps graph fuel (st ∷ sts) s =
    let rest = search_steps graph fuel sts in
    if contains st.id s.visited then rest s else then_on (dfs_find_cycle graph fuel st.id s) rest

abbrev pub blank_search : Search
blank_search = record { visited = []; in_stack = []; path = [] }

abbrev pub cycle_text : Found → String
cycle_text (found text) = text
cycle_text (clear s) = "unknown cycle"

unfoldable pub find_cycle : List Step → Option String
unfolding search_steps collect
find_cycle steps =
    elim (search_steps (collect (λ s. s.needs) steps []) (suc (length steps)) steps blank_search) [
      | none ↦ none
      | some f ↦ some (cycle_text f)
    ]

unfoldable pub sort_result : List Step → List Step → Option (Result DagError (List Step))
unfolding find_cycle
sort_result steps result =
    if length result == length steps
    then some (ok result)
    else elim (find_cycle steps) [ none ↦ none | some text ↦ some (err (cycle text)) ]

unfoldable pub validate_dag : FlowConfig → Option (Result DagError (List Step))
unfolding unknown_reference kahn sort_result
validate_dag config = elim (unknown_reference (ids config.steps) config.steps) [
  | some e ↦ some (err e)
  | none ↦ elim (kahn config.steps) [ none ↦ none | some result ↦ sort_result config.steps result ]
]
