-- ===== src/Dag/Tests.antt =====
-- The flows of the tests of src/dag.rs, and the theorems on them.
use kuromaku.Prelude.{
  String, ◌≡◌, refl, inl, inr, false, none, some, List, [], ◌∷◌, Distinct, contains, not-contains,
  str_eq,
}
use kuromaku.Prelude.Result.{ok, err}
use kuromaku.Runner.Graph.Model.{api}
use kuromaku.Config.{Step, FlowConfig}
use kuromaku.Dag.{ids, cycle, unknown_step, validate_dag}
use kuromaku.Dag.Spec.{IsOrder}
use kuromaku.Dag.Order.{Outcome, validate_dag-Outcome, validate_dag_complete}

abbrev step : String → List String → Step
step id needs = record {
  id = id;
  agent = "dev";
  role = none;
  task = none;
  run = none;
  input = [];
  needs = needs;
  model = none;
  backend = none;
  print_output = false;
  post_comment = none;
  agents = [];
  max_turns = none;
  turn_timeout = none;
  extra_args = [];
}

abbrev flow : List Step → FlowConfig
flow steps = record {
  version = "1";
  name = "test";
  prompt = none;
  defaults = record { model = "m"; backend = api };
  roles = [];
  steps = steps;
  stack = record { backend = "local"; path = "" };
}

abbrev diamond : List Step
diamond = step "d" ("b" ∷ "c" ∷ []) ∷ step "c" ("a" ∷ []) ∷ step "b" ("a" ∷ []) ∷ step "a" [] ∷ []

abbrev diamond_order : List Step
diamond_order =
    step "a" [] ∷ step "b" ("a" ∷ []) ∷ step "c" ("a" ∷ []) ∷ step "d" ("b" ∷ "c" ∷ []) ∷ []

diamond_sorted : validate_dag (flow diamond) ≡ some (ok diamond_order)
unfolding validate_dag str_eq
diamond_sorted = refl

three_nodes :
    validate_dag (flow (step "a" ("c" ∷ []) ∷ step "b" ("a" ∷ []) ∷ step "c" ("b" ∷ []) ∷ []))
    ≡ some (err (cycle "a -> c -> b -> a"))
unfolding validate_dag str_eq
three_nodes = refl

missing_step :
    validate_dag (flow (step "a" ("nonexistent" ∷ []) ∷ []))
    ≡ some (err (unknown_step "a" "nonexistent"))
unfolding validate_dag str_eq
missing_step = refl

diamond-Distinct : Distinct (ids diamond)
unfolding contains str_eq
diamond-Distinct = (
  not-contains "d" ("c" ∷ "b" ∷ "a" ∷ []) refl,
  (not-contains "c" ("b" ∷ "a" ∷ []) refl, (not-contains "b" ("a" ∷ []) refl, ((λ h. h), tt))),
)

order-Distinct : Distinct (ids diamond_order)
unfolding contains str_eq
order-Distinct = (
  not-contains "a" ("b" ∷ "c" ∷ "d" ∷ []) refl,
  (not-contains "b" ("c" ∷ "d" ∷ []) refl, (not-contains "c" ("d" ∷ []) refl, ((λ h. h), tt))),
)

validate_dag-Outcome_example : Outcome diamond (validate_dag (flow diamond))
validate_dag-Outcome_example = validate_dag-Outcome (flow diamond) diamond-Distinct

diamond-IsOrder : IsOrder diamond diamond_order
diamond-IsOrder = record {
  ordered = (tt, ((inl refl, tt), ((inr (inl refl), tt), ((inr (inl refl), (inl refl, tt)), tt))));
  distinct = order-Distinct;
  same = λ s. (
    (λ m. elim m [
      | inl a ↦ inr (inr (inr (inl a)))
      | inr (inl b) ↦ inr (inr (inl b))
      | inr (inr (inl c)) ↦ inr (inl c)
      | inr (inr (inr (inl d))) ↦ inl d
      | inr (inr (inr (inr bad))) ↦ absurd bad
    ]),
    (λ m. elim m [
      | inl d ↦ inr (inr (inr (inl d)))
      | inr (inl c) ↦ inr (inr (inl c))
      | inr (inr (inl b)) ↦ inr (inl b)
      | inr (inr (inr (inl a))) ↦ inl a
      | inr (inr (inr (inr bad))) ↦ absurd bad
    ]),
  );
}

validate_dag_complete_example :
    (result : List Step) × (validate_dag (flow diamond) ≡ some (ok result)) × IsOrder diamond result
validate_dag_complete_example =
    validate_dag_complete (flow diamond) diamond_order diamond-Distinct diamond-IsOrder
