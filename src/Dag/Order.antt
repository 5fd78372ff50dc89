-- ===== src/Dag/Order.antt =====
-- What `validate_dag` returns: an order of the steps, or an error that is there.
use kuromaku.Prelude.{
  String, ◌≡◌, refl, sym, subst, inl, inr, Option, none, some, List, [], ◌∷◌, All, All-map,
  All-Member, Member, Distinct, length, ◌==◌, Bool-cases,
}
use kuromaku.Prelude.Result.{Result, ok, err}
use kuromaku.Config.{Step, FlowConfig}
use kuromaku.Dag.{DagError, ids, sort_result, validate_dag}
use kuromaku.Dag.Spec.{Ordered, IsOrder}
use kuromaku.Dag.Collect.{Member-ids}
use kuromaku.Dag.Kahn.{Drained}
use kuromaku.Dag.Kahn.Loop.{kahn_lem}
use kuromaku.Dag.Cycles.Whole.{AllKnown, find_cycle_lem}
use kuromaku.Dag.Sorted.{
  Explains, IsOrder-of, IsOrder-sorted, eq_is, is_eq, length-sorted, not_eq, unknown_reference_lem,
}

-- An outcome that is right: an order of the steps, or an error that is there.
abbrev pub Outcome : List Step → Option (Result DagError (List Step)) → Type 0
Outcome steps none = ⊥
Outcome steps (some (ok order)) = IsOrder steps order
Outcome steps (some (err e)) = Explains steps e

sort_result-Outcome :
    (steps result : List Step)
    → Distinct (ids steps)
    → AllKnown steps
    → Drained steps [] result
    → Outcome steps (sort_result steps result)
unfolding sort_result
sort_result-Outcome steps result distinct known r =
    elim (Bool-cases (length result == length steps)) [
      | inl e ↦ rw (sort_result, e) (IsOrder-sorted steps result distinct r (is_eq e))
      | inr e ↦ elim (find_cycle_lem steps distinct known) [
        | inl (text, same, names) ↦ rw (sort_result, e, same) names
        | inr (order, o, once, inside, all) ↦ absurd (
            not_eq e (
              length-sorted steps result order distinct r
                (IsOrder-of steps order distinct o once inside all)))
      ]
    ]

-- For a flow whose steps have distinct ids `validate_dag` always returns. An order that it returns
-- has each step of the flow once, behind all that it needs. An error for an unknown step names a step
-- of the flow and one of its needs that is no step's id, and the text of an error for a cycle lists a
-- way from a step along its needs back to itself.
pub validate_dag-Outcome :
    (config : FlowConfig) → Distinct (ids config.steps) → Outcome config.steps (validate_dag config)
unfolding validate_dag
validate_dag-Outcome config distinct =
    elim (unknown_reference_lem (ids config.steps) config.steps) [
      | inl (s, d, same, m, need, out) ↦ rw (validate_dag, same) (s, m, refl, need, out)
      | inr (same, known) ↦
          let (result, sorted, r) = kahn_lem config.steps distinct in
          rw (validate_dag, same, sorted) (sort_result-Outcome config.steps result distinct known r)
    ]

needs_inside :
    (steps order : List Step) (seen : List String)
    → ((s : Step) → Member s order → Member s steps)
    → All (λ k. Member k (ids steps)) seen
    → Ordered seen order
    → (s : Step) → Member s order
    → All (λ d. Member d (ids steps)) s.needs
needs_inside steps [] seen inside before o s m = absurd m
needs_inside steps (t ∷ order) seen inside before o s (inl e) =
    subst (λ (x : Step). All (λ d. Member d (ids steps)) x.needs) (sym e)
      (All-map _ _ t.needs (λ d n. All-Member _ seen before n) o.0)
needs_inside steps (t ∷ order) seen inside before o s (inr m) =
    needs_inside steps order (t.id ∷ seen) (λ x n. inside x (inr n))
      (Member-ids t steps (inside t (inl refl)), before) o.1 s m

-- For a flow whose steps have distinct ids, `validate_dag` returns an order wherever the steps can be
-- brought into one: it rejects no flow that could run.
pub validate_dag_complete :
    (config : FlowConfig) (order : List Step)
    → Distinct (ids config.steps)
    → IsOrder config.steps order
    → (result : List Step) × (validate_dag config ≡ some (ok result)) × IsOrder config.steps result
unfolding validate_dag sort_result
validate_dag_complete config order distinct o =
    let (result, sorted, r) = kahn_lem config.steps distinct in
    let full = length-sorted config.steps result order distinct r o in
    elim (unknown_reference_lem (ids config.steps) config.steps) [
      | inl (s, d, same, m, need, out) ↦ absurd (
          out (
            All-Member _ s.needs
              (needs_inside config.steps order [] (λ x. (o.same x).0) tt o.ordered s
                ((o.same s).1 m))
              need))
      | inr (same, known) ↦ (
        result,
        rw (validate_dag, same, sorted, sort_result, eq_is full) refl,
        IsOrder-sorted config.steps result distinct r full,
      )
    ]
