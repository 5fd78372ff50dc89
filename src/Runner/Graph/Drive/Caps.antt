-- ===== src/Runner/Graph/Drive/Caps.antt =====
-- The caps on the steps of a run and on the visits of a state.
use kuromaku.Prelude.{
  ℕ, ◌+◌, ◌≤◌, String, ◌≡◌, refl, ap, subst, ◌∙◌, inl, inr, Option, none, some, List, [], ◌∷◌, ◌++◌,
  Assoc, insert, lookup-insert, length, length-append, str_eq, str-cases, if◌then◌else◌, arith,
}
use kuromaku.Prelude.Result.{Result, ok, err}
use kuromaku.Core.GraphFlow.{SelectEntry}
use kuromaku.Core.Validator.{entries_of}
use kuromaku.Runner.Graph.Model.{
  StepRunResult, RunError, World, Setup, ResumeFrom, Disk, Driver, GraphRunOutcome, final, paused,
  default_max_steps, default_max_visits_per_state,
}
use kuromaku.Runner.Graph.Working.{visits_of}
use kuromaku.Runner.Graph.Drive.{starting, run_graph_flow}
use kuromaku.Runner.Graph.Drive.Round.{Counted}
use kuromaku.Runner.Graph.Drive.Ends.{Goes, Stops, drive_rule, run_graph_flow-ok}

-- How often a state is among the results.
abbrev pub count : String → List StepRunResult → ℕ
count k [] = 0
count k (r ∷ rs) = (if str_eq k r.step_id then 1 else 0) + count k rs

abbrev pub steps_of : GraphRunOutcome → List StepRunResult
steps_of (final steps id) = steps
steps_of (paused steps id) = steps

count-append :
    (k : String) (xs : List StepRunResult) (r : StepRunResult)
    → count k (xs ++ r ∷ []) ≡ count k xs + (if str_eq k r.step_id then 1 else 0)
count-append k [] r = omega arith
count-append k (x ∷ xs) r = omega (arith, count-append k xs r)

record IsCapped (d : Driver) : Type 0 where
  steps : length d.results ≤ default_max_steps
  numbered : length d.results ≤ d.step_num
  visited : (k : String) → count k d.results ≤ visits_of d.visits k
  few : (k : String) → count k d.results ≤ default_max_visits_per_state

visits_of-insert :
    (id k : String) (n : ℕ) (v : Assoc ℕ)
    → visits_of (insert id n v) k ≡ (if str_eq k id then n else visits_of v k)
visits_of-insert id k n v = ground (arith, lookup-insert id k n v)

module _ (d d' : Driver) (entries : List SelectEntry) (c : IsCapped d)
    (h : Counted d d' entries) where
  total :
      (k : String) → count k d'.results ≡ count k d.results + (if str_eq k d.current then 1 else 0)
  total k =
      ap (count k) h.appended
      ∙ count-append k d.results h.result
      ∙ ap (λ id. count k d.results + (if str_eq k id then 1 else 0)) h.ran_at

  seen :
      (k : String)
      → visits_of d'.visits k
        ≡ (if str_eq k d.current then visits_of d.visits d.current + 1 else visits_of d.visits k)
  seen k =
      ap (λ v. visits_of v k) h.visited
      ∙ visits_of-insert d.current k (visits_of d.visits d.current + 1) d.visits

  count-le :
      (k : String)
      → (count k d'.results ≤ visits_of d'.visits k)
        × (count k d'.results ≤ default_max_visits_per_state)
  count-le k = elim (str-cases k d.current) [
    | inl (t, same) ↦
        let up : count k d'.results ≡ count k d.results + 1 = rw t at (total k) in
        let now : visits_of d'.visits k ≡ visits_of d.visits d.current + 1 = rw t at (seen k) in
        let base = subst (λ id. count k d.results ≤ visits_of d.visits id) same (c.visited k) in
        let few = h.within_visits in (omega arith, omega arith)
    | inr t ↦
        let kept : count k d'.results ≡ count k d.results + 0 = rw t at (total k) in
        let now : visits_of d'.visits k ≡ visits_of d.visits k = rw t at (seen k) in
        let base = c.visited k in let few = c.few k in (omega arith, omega arith)
  ]

  IsCapped-Counted : IsCapped d'
  IsCapped-Counted =
      let longer : length d'.results ≡ length d.results + 1 =
        ap length h.appended ∙ length-append d.results (h.result ∷ []) ∙ refl in
      let numbered = c.numbered in
      let counted = h.counted in
      let within = h.within_steps in
      record {
        steps = omega arith;
        numbered = omega arith;
        visited = λ k. (count-le k).0;
        few = λ k. (count-le k).1;
      }

IsCapped-Goes : (setup : Setup) (d d' : Driver) → IsCapped d → Goes setup d d' → IsCapped d'
IsCapped-Goes setup d d' c (s, found, inl (works, h)) = IsCapped-Counted d d' (entries_of s) c h
IsCapped-Goes setup d d' c (s, found, inr h) =
    let numbered = c.numbered in
    let up = h.not_back in
    record {
      steps = rw h.same_results c.steps;
      numbered = rw h.same_results (omega arith);
      visited = λ k. rw (h.same_results, h.same_visits) (c.visited k);
      few = λ k. rw h.same_results (c.few k);
    }

-- At most 30 steps, and at most 5 of one state.
abbrev pub KeepsCaps : List StepRunResult → Type 0
KeepsCaps steps =
    (length steps ≤ default_max_steps)
    × ((k : String) → count k steps ≤ default_max_visits_per_state)

abbrev CapsResult : Result RunError GraphRunOutcome → Type 0
CapsResult (ok o) = KeepsCaps (steps_of o)
CapsResult (err e) = Unit

IsCapped-Stops :
    (setup : Setup) (d : Driver) (r : Result RunError GraphRunOutcome)
    → IsCapped d
    → Stops setup d r
    → CapsResult r
IsCapped-Stops setup d (err e) c h = tt
IsCapped-Stops setup d (ok (final steps id)) c (inl (s, found, (over, same, at))) =
    rw same (c.steps, c.few)
IsCapped-Stops setup d (ok (paused steps id)) c (inl (s, found, (human, p, same, at))) =
    rw same (c.steps, c.few)
IsCapped-Stops setup d (ok o) c (inr (lost, e)) = cc

IsCapped-starting :
    (w : World) (setup : Setup) (resume : Option ResumeFrom) (disk : Disk)
    → IsCapped (starting w setup resume disk)
IsCapped-starting w setup none disk = record {
  steps = omega arith;
  numbered = omega arith;
  visited = λ k. omega arith;
  few = λ k. omega arith;
}
IsCapped-starting w setup (some r) disk = record {
  steps = omega arith;
  numbered = omega arith;
  visited = λ k. omega arith;
  few = λ k. omega arith;
}

-- A run that is done or paused has taken at most 30 steps since it was started or resumed, and at
-- most 5 at any one state, under both policies.
pub run_graph_flow-KeepsCaps :
    (w : World) (setup : Setup) (fuel : ℕ) (resume : Option ResumeFrom) (disk : Disk)
    (env env' : w.State) (o : GraphRunOutcome) (d : Driver)
    → run_graph_flow w setup fuel resume disk env ≡ some (ok o, d, env')
    → KeepsCaps (steps_of o)
run_graph_flow-KeepsCaps w setup fuel resume disk env env' o d h =
    drive_rule w setup IsCapped CapsResult (IsCapped-Goes setup) (IsCapped-Stops setup) fuel
      (starting w setup resume disk) env (IsCapped-starting w setup resume disk)
      (run_graph_flow-ok w setup fuel resume disk env env' o d h)
