-- ===== src/Runner/Graph/Drive/Validated.antt =====
-- A run of a flow that src/core/validator.rs accepts.
use kuromaku.Prelude.{
  ℕ, String, ◌≡◌, refl, sym, ap, ◌∙◌, ◌≢◌, ◌⊎◌, inl, inr, true, false, Option, none, some, List, [],
  ◌∷◌, lookup, head?, Member, Assoc, keys, find-hit, All, All-Member, lookup-Member, Bool-cases,
  str_eq, str_eq_refl, str-cases, arith,
}
use mathlib.Core.Option.{some-injective}
use kuromaku.Prelude.Number.{ℤ, is_zero}
use kuromaku.Prelude.Result.{Result, ok, err}
use kuromaku.Core.GraphFlow.{GraphState, SelectEntry, is_final, is_human, is_shell}
use kuromaku.Core.Validator.{entries_of, reason_text, validate_graph_flow}
use kuromaku.Core.Validator.Spec.{IsWellFormed, IsWellFormedState, RoutesExitCode, HasShape, Known}
use kuromaku.Core.Validator.Structure.{validate_iff}
use kuromaku.Runner.Graph.Model.{RunError, World, Setup, ResumeFrom, Disk, Driver, GraphRunOutcome}
use kuromaku.Runner.Graph.Shell.{targets_of, entry_for, wanted}
use kuromaku.Runner.Graph.Drive.{starting, run_graph_flow}
use kuromaku.Runner.Graph.Drive.Calls.{IsStructural, Routed}
use kuromaku.Runner.Graph.Drive.Round.{Bound, Ready}
use kuromaku.Runner.Graph.Drive.Advance.{Sound}
use kuromaku.Runner.Graph.Drive.Ends.{Goes, Stops, drive_rule, run_graph_flow-err}
use kuromaku.Runner.Graph.Drive.Trace.{started_at}

-- The run can go on from the state: it has a target, and an agent if it asks one.
abbrev pub IsSupplied : Setup → String × GraphState → Type 0
IsSupplied setup (id, s) =
    is_final s ≡ false
    → (entries_of s ≢ []) × (is_human s ≡ false → is_shell s ≡ false → Bound setup id)

wanted-cases : (code : ℤ) → (wanted code ≡ "pass") ⊎ (wanted code ≡ "fail")
wanted-cases code = elim (Bool-cases (is_zero code)) [
  | inl e ↦ inl (rw e refl)
  | inr e ↦ inr (rw e refl)
]

routes-to :
    (id : String) (s : GraphState) (code : ℤ)
    → RoutesExitCode id s
    → (e : SelectEntry) × Member e (entries_of s) × (reason_text e ≡ wanted code)
routes-to id s code h =
    let first : Member h.first (entries_of s) = rw h.listed (inl refl) in
    let second : Member h.second (entries_of s) = rw h.listed (inr (inl refl)) in
    elim (wanted-cases code) [
      | inl e ↦ elim h.outcomes [
        | inl (a, b) ↦ (h.first, first, a ∙ sym e)
        | inr (a, b) ↦ (h.second, second, b ∙ sym e)
      ]
      | inr e ↦ elim h.outcomes [
        | inl (a, b) ↦ (h.second, second, b ∙ sym e)
        | inr (a, b) ↦ (h.first, first, a ∙ sym e)
      ]
    ]

Routed-routes : (id : String) (s : GraphState) → RoutesExitCode id s → Routed (entries_of s)
unfolding entry_for
Routed-routes id s h code =
    let (e, m, same) = routes-to id s code h in
    find-hit (λ x. str_eq (reason_text x) (wanted code)) e (entries_of s) m
      (rw same (str_eq_refl (wanted code)))

human-not_final :
    (id : String) (s : GraphState) → HasShape id s → is_human s ≡ true → is_final s ≡ false
human-not_final id s (inl h) human = rw h.not_final refl
human-not_final id s (inr (inl h)) human = absurd (cc (human, h.not_human))
human-not_final id s (inr (inr (inl h))) human = rw h.not_final refl
human-not_final id s (inr (inr (inr h))) human = rw h.not_final refl

Ready-shape :
    (setup : Setup) (id : String) (s : GraphState)
    → HasShape id s
    → is_final s ≡ false
    → (is_shell s ≡ false → Bound setup id)
    → Ready setup id s (entries_of s)
Ready-shape setup id s (inl h) on bound =
    ((λ shell. (rw h.runs h.command_shown, Routed-routes id s h.routes)), bound)
Ready-shape setup id s (inr (inl h)) on bound = absurd (ground (arith, h.ends))
Ready-shape setup id s (inr (inr (inl h))) on bound =
    (λ shell. absurd (ground (arith, h.not_shell)), bound)
Ready-shape setup id s (inr (inr (inr h))) on bound =
    (λ shell. absurd (ground (arith, h.not_shell)), bound)

Sound-supplied :
    (setup : Setup) (id : String) (s : GraphState)
    → IsWellFormedState setup.graph.graph (id, s)
    → IsSupplied setup (id, s)
    → Sound setup id s
Sound-supplied setup id s (known, distinct, shape) supplied = (
  (λ human. (supplied (human-not_final id s shape human)).0),
  λ on works. ((supplied on).0, Ready-shape setup id s shape on ((supplied on).1 works)),
)

Known-target :
    (states : Assoc GraphState) (es : List SelectEntry) (id : String)
    → Known states es
    → Member id (targets_of es)
    → Member id (keys states)
Known-target states [] id h m = absurd m
Known-target states (e ∷ es) id h (inl same) = rw same h.0
Known-target states (e ∷ es) id h (inr m) = Known-target states es id h.1 m

first-target :
    (es : List SelectEntry) (e : SelectEntry) → head? es ≡ some e → Member e.target (targets_of es)
first-target [] e h = cc
first-target (x ∷ es) e h = inl (ap (λ (y : SelectEntry). y.target) (sym (some-injective x e h)))

key-found : {V : Type 0} (id : String) (m : Assoc V) → Member id (keys m) → lookup id m ≢ none
unfolding lookup
key-found id [] k = absurd k
key-found id ((j, v) ∷ m) k = elim (str-cases id j) [
  | inl (t, same) ↦ λ lost. cc (rw t at lost)
  | inr t ↦ elim k [
    | inl same ↦ absurd (cc (str_eq_refl id, t, same))
    | inr n ↦ rw t (key-found id m n)
  ]
]

module _ (setup : Setup) (well : IsWellFormed setup.graph)
    (supplied : All (IsSupplied setup) setup.graph.graph) where
  abbrev Inside : Driver → Type 0
  Inside d = Member d.current (keys setup.graph.graph)

  abbrev NotStructural : Result RunError GraphRunOutcome → Type 0
  NotStructural (ok o) = Unit
  NotStructural (err e) = ¬ IsStructural e

  well_formed :
      (id : String) {s : GraphState}
      → lookup id setup.graph.graph ≡ some s
      → IsWellFormedState setup.graph.graph (id, s)
  well_formed id found =
      All-Member (IsWellFormedState setup.graph.graph) setup.graph.graph well.states
        (lookup-Member id setup.graph.graph found)

  Inside-Goes : (d d' : Driver) → Inside d → Goes setup d d' → Inside d'
  Inside-Goes d d' m (s, found, inl (works, h)) =
      Known-target setup.graph.graph (entries_of s) d'.current (well_formed d.current found).0
        h.moved
  Inside-Goes d d' m (s, found, inr h) = rw h.moved (
      Known-target setup.graph.graph (entries_of s) h.first.target (well_formed d.current found).0
        (first-target (entries_of s) h.first h.listed))

  Inside-Stops :
      (d : Driver) (r : Result RunError GraphRunOutcome)
      → Inside d
      → Stops setup d r
      → NotStructural r
  Inside-Stops d (ok o) m h = tt
  Inside-Stops d (err e) m (inl (s, found, h)) = h (
      Sound-supplied setup d.current s (well_formed d.current found) (
        All-Member (IsSupplied setup) setup.graph.graph supplied
          (lookup-Member d.current setup.graph.graph found)))
  Inside-Stops d (err e) m (inr (lost, same)) =
      absurd (key-found d.current setup.graph.graph m lost)

  Inside-starting :
      (w : World) (resume : Option ResumeFrom) (disk : Disk)
      → Member (started_at setup resume) (keys setup.graph.graph)
      → Inside (starting w setup resume disk)
  Inside-starting w none disk m = m
  Inside-starting w (some r) disk m = m

-- A run of a flow that the validator accepts, where each state that is not final has a target, each
-- state that asks an agent has one, and a resumed run is resumed at a state of the flow, never ends
-- with an error that the flow's shape or its bindings cause: an unknown state or agent, a missing
-- list, command or route, no decision, or a panic.
pub run_graph_flow-validated :
    (w : World) (setup : Setup) (fuel : ℕ) (resume : Option ResumeFrom) (disk : Disk)
    (env env' : w.State) (e : RunError) (d : Driver)
    → validate_graph_flow setup.graph ≡ ok tt
    → All (IsSupplied setup) setup.graph.graph
    → Member (started_at setup resume) (keys setup.graph.graph)
    → run_graph_flow w setup fuel resume disk env ≡ some (err e, d, env')
    → ¬ IsStructural e
run_graph_flow-validated w setup fuel resume disk env env' e d accepted supplied m h =
    let well = (validate_iff setup.graph).0 accepted in
    elim (run_graph_flow-err w setup fuel resume disk env env' e d h) [
      | inr init ↦ rw init (λ bad. bad)
      | inl ran ↦
          drive_rule w setup (Inside setup well supplied) (NotStructural setup well supplied)
            (Inside-Goes setup well supplied) (Inside-Stops setup well supplied) fuel
            (starting w setup resume disk) env (Inside-starting setup well supplied w resume disk m)
            ran
    ]
