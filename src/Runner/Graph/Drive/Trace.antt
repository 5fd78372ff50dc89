-- ===== src/Runner/Graph/Drive/Trace.antt =====
-- The path that a run takes through the flow's graph.
use kuromaku.Prelude.{
  ℕ, String, ◌≡◌, sym, subst, inl, inr, true, false, Option, none, some, List, [], ◌∷◌, ◌++◌,
  lookup, head?, Member,
}
use kuromaku.Prelude.Result.{Result, ok, err}
use kuromaku.Core.GraphFlow.{GraphFlow, GraphState, SelectEntry, is_final, is_human}
use kuromaku.Core.Validator.{entries_of}
use kuromaku.Runner.Graph.Model.{
  StepRunResult, RunError, World, Setup, ResumeFrom, Disk, Driver, GraphRunOutcome, final, paused,
  pause,
}
use kuromaku.Runner.Graph.Shell.{targets_of}
use kuromaku.Runner.Graph.Drive.{starting, run_graph_flow}
use kuromaku.Runner.Graph.Drive.Calls.{transition_of}
use kuromaku.Runner.Graph.Drive.Ends.{Goes, Stops, drive_rule, run_graph_flow-ok}

-- `Trace g start steps id`: from `start`, the steps lead to `id`. A state that works adds its step and
-- leads to the target that the step records, one of its own; a human state leads to its first.
pub data Trace (g : GraphFlow) (start : String) : List StepRunResult → String → Type 0 where
  begin : Trace g start [] start
  ran :
      (steps : List StepRunResult) (id : String) (s : GraphState) (r : StepRunResult)
      (next : String)
      → Trace g start steps id
      → lookup id g.graph ≡ some s
      → is_human s ≡ false
      → r.step_id ≡ id
      → transition_of r ≡ some next
      → Member next (targets_of (entries_of s))
      → Trace g start (steps ++ r ∷ []) next
  handed :
      (steps : List StepRunResult) (id : String) (s : GraphState) (e : SelectEntry)
      → Trace g start steps id
      → lookup id g.graph ≡ some s
      → is_human s ≡ true
      → head? (entries_of s) ≡ some e
      → Trace g start steps e.target

-- Where the flow ends a run, and where it pauses one.
abbrev pub Followed : Setup → String → GraphRunOutcome → Type 0
Followed setup start (final steps id) =
    Trace setup.graph start steps id
    × (s : GraphState) × (lookup id setup.graph.graph ≡ some s)
    × (is_final s ≡ true)
Followed setup start (paused steps id) =
    Trace setup.graph start steps id
    × (setup.policy ≡ pause)
    × (s : GraphState) × (lookup id setup.graph.graph ≡ some s)
    × (is_human s ≡ true)

abbrev FollowedResult : Setup → String → Result RunError GraphRunOutcome → Type 0
FollowedResult setup start (ok o) = Followed setup start o
FollowedResult setup start (err e) = Unit

module _ (setup : Setup) (start : String) where
  abbrev OnTrace : Driver → Type 0
  OnTrace d = Trace setup.graph start d.results d.current

  OnTrace-Goes : (d d' : Driver) → OnTrace d → Goes setup d d' → OnTrace d'
  OnTrace-Goes d d' t (s, found, inl (works, h)) =
      subst (λ rs. Trace setup.graph start rs d'.current) (sym h.appended)
        (ran d.results d.current s h.result d'.current t found works h.ran_at h.chose h.moved)
  OnTrace-Goes d d' t (s, found, inr h) =
      rw (h.same_results, h.moved) (handed d.results d.current s h.first t found h.human h.listed)

  OnTrace-Stops :
      (d : Driver) (r : Result RunError GraphRunOutcome)
      → OnTrace d
      → Stops setup d r
      → FollowedResult setup start r
  OnTrace-Stops d (err e) t h = tt
  OnTrace-Stops d (ok (final steps id)) t (inl (s, found, (over, same, at))) =
      rw (same, at) (t, s, found, over)
  OnTrace-Stops d (ok (paused steps id)) t (inl (s, found, (human, p, same, at))) =
      rw (same, at) (t, p, s, found, human)
  OnTrace-Stops d (ok o) t (inr (lost, e)) = cc

-- The state that a run is started or resumed at.
abbrev pub started_at : Setup → Option ResumeFrom → String
started_at setup none = setup.graph.initial
started_at setup (some r) = r.state

OnTrace-starting :
    (w : World) (setup : Setup) (resume : Option ResumeFrom) (disk : Disk)
    → OnTrace setup (started_at setup resume) (starting w setup resume disk)
OnTrace-starting w setup none disk = begin
OnTrace-starting w setup (some r) disk = begin

-- The steps of a run that is done or paused are a path of the flow's graph, from the state that the
-- run began at to the one that it reports. That one is final where the run is done, and a human state
-- under the policy that pauses where it is paused.
pub run_graph_flow-Followed :
    (w : World) (setup : Setup) (fuel : ℕ) (resume : Option ResumeFrom) (disk : Disk)
    (env env' : w.State) (o : GraphRunOutcome) (d : Driver)
    → run_graph_flow w setup fuel resume disk env ≡ some (ok o, d, env')
    → Followed setup (started_at setup resume) o
run_graph_flow-Followed w setup fuel resume disk env env' o d h =
    let start = started_at setup resume in
    drive_rule w setup (OnTrace setup start) (FollowedResult setup start) (OnTrace-Goes setup start)
      (OnTrace-Stops setup start) fuel (starting w setup resume disk) env
      (OnTrace-starting w setup resume disk)
      (run_graph_flow-ok w setup fuel resume disk env env' o d h)
