-- ===== src/Runner/Graph/Drive/Ends.antt =====
-- The loop ends, and its caps hold.
use kuromaku.Prelude.{
  ℕ, zero, suc, ◌+◌, ◌-◌, ◌≤◌, ◌<◌, ◌≡◌, refl, ap, subst, ◌⊎◌, inl, inr, Option, none, some, lookup,
  if◌then◌else◌, Bool-cases, Option-cases, arith,
}
use mathlib.Core.Option.{some-injective}
use kuromaku.Prelude.Result.{Result, ok, err}
use kuromaku.Core.GraphFlow.{GraphState}
use kuromaku.Runner.Graph.Model.{
  RunError, graph_runtime, stack_error, create_dir_failed, state_not_found, World, Setup,
  ResumeFrom, Disk, Driver, Step, continue, stop, GraphRunOutcome, pause,
}
use kuromaku.Runner.Graph.Drive.{advance, drive, starting, enough, run_graph_flow}
use kuromaku.Runner.Graph.Drive.Calls.{Post, Post-mono}
use kuromaku.Runner.Graph.Drive.Advance.{Moves, Ends, Sound, advance-Post, advance-unknown}

-- A round goes on from a state of the graph.
abbrev pub Goes : Setup → Driver → Driver → Type 0
Goes setup d d' =
    (s : GraphState) × (lookup d.current setup.graph.graph ≡ some s) × Moves setup d s d'

-- A round ends the run, at a state of the graph or outside it.
abbrev pub Stops : Setup → Driver → Result RunError GraphRunOutcome → Type 0
Stops setup d r =
    ((s : GraphState) × (lookup d.current setup.graph.graph ≡ some s)
      × Ends setup d s (Sound setup d.current s) r)
    ⊎ (lookup d.current setup.graph.graph ≡ none)
      × (r ≡ err (graph_runtime d.current state_not_found))

module _ (w : World) (setup : Setup) where
  pub advance-Goes :
      (d : Driver) (env : w.State) → Post w (Goes setup d) (Stops setup d) (advance w setup d env)
  advance-Goes d env = elim (Option-cases (lookup d.current setup.graph.graph)) [
    | inl e ↦
        Post-mono w (λ d'. ⊥) (Goes setup d) _ (Stops setup d) (advance w setup d env)
          (λ d' bad. absurd bad) (λ r h. inr (e, h)) (advance-unknown w setup d env e)
    | inr (s, e) ↦
        Post-mono w (Moves setup d s) (Goes setup d) (Ends setup d s (Sound setup d.current s))
          (Stops setup d) (advance w setup d env) (λ d' h. (s, e, h)) (λ r h. inl (s, e, h))
          (advance-Post w setup d env s e)
  ]

  Step-cases :
      (step : Step w)
      → ((d : Driver) × (env : w.State) × (step ≡ continue d env))
        ⊎ ((r : Result RunError GraphRunOutcome) × (d : Driver) × (env : w.State) × (step
              ≡ stop r d env))
  Step-cases (continue d env) = inl (d, env, refl)
  Step-cases (stop r d env) = inr (r, d, env, refl)

  -- What every round keeps holds where the loop ends.
  pub drive_rule :
      (P : Driver → Type 0) (Q : Result RunError GraphRunOutcome → Type 0)
      → ((d d' : Driver) → P d → Goes setup d d' → P d')
      → ((d : Driver) (r : Result RunError GraphRunOutcome) → P d → Stops setup d r → Q r)
      → (fuel : ℕ) (d : Driver) (env : w.State) {r : Result RunError GraphRunOutcome} {d' : Driver}
        {env' : w.State}
      → P d
      → drive w setup fuel d env ≡ some (r, d', env')
      → Q r
  unfolding drive
  drive_rule P Q go end zero d env p h = cc
  drive_rule P Q go end (suc fuel) d env {r} {d'} {env'} p h =
      elim (Step-cases (advance w setup d env)) [
        | inl (d1, env1, e) ↦
            drive_rule P Q go end fuel d1 env1 (go d d1 p (rw e at (advance-Goes d env)))
              (rw (e, drive) at h)
        | inr (r1, d1, env1, e) ↦
            let same = some-injective (r1, d1, env1) (r, d', env') (rw (e, drive) at h) in
            subst Q (ap (λ (t : Result RunError GraphRunOutcome × Driver × w.State). t.0) same)
              (end d r1 p (rw e at (advance-Goes d env)))
      ]

  -- The rounds that are left where a human state ends the run.
  abbrev rounds_left : Driver → ℕ
  rounds_left d = (31 - d.step_num) + (if d.skip_pause_once then 1 else 0)

  rounds_left-falls :
      (d d' : Driver) → setup.policy ≡ pause → Goes setup d d' → rounds_left d' < rounds_left d
  rounds_left-falls d d' p (s, found, inl (works, k)) =
      rw k.skips (omega (arith, k.counted, k.within_steps))
  rounds_left-falls d d' p (s, found, inr h) = elim h.cause [
    | inl (skip, off, same) ↦ rw (skip, off, same) (omega arith)
    | inr (policy, _, _) ↦ cc
  ]

  drive_ends :
      (fuel : ℕ) (d : Driver) (env : w.State)
      → setup.policy ≡ pause
      → rounds_left d < fuel
      → (r : Result RunError GraphRunOutcome) × (d' : Driver) × (env' : w.State) × (drive w setup
            fuel d env
          ≡ some (r, d', env'))
  unfolding drive
  drive_ends zero d env p low = elim low [ ]
  drive_ends (suc fuel) d env p low = elim (Step-cases (advance w setup d env)) [
    | inl (d1, env1, e) ↦
        let falls = rounds_left-falls d d1 p (rw e at (advance-Goes d env)) in
        let (r, d', env', ended) = drive_ends fuel d1 env1 p (omega arith) in
        (r, d', env', rw (drive, e) ended)
    | inr (r1, d1, env1, e) ↦ (r1, d1, env1, rw (drive, e) refl)
  ]

-- A run with an outcome is a run of the loop.
pub run_graph_flow-ok :
    (w : World) (setup : Setup) (fuel : ℕ) (resume : Option ResumeFrom) (disk : Disk)
    (env env' : w.State) (o : GraphRunOutcome) (d : Driver)
    → run_graph_flow w setup fuel resume disk env ≡ some (ok o, d, env')
    → drive w setup fuel (starting w setup resume disk) env ≡ some (ok o, d, env')
unfolding run_graph_flow
run_graph_flow-ok w setup fuel resume disk env env' o d h = elim (Bool-cases (w.init_fails env)) [
  | inl bad ↦ absurd (cc (rw (bad, run_graph_flow) at h))
  | inr fine ↦ rw (fine, run_graph_flow) at h
]

-- A run with an error is one of the loop, unless its directory could not be made.
pub run_graph_flow-err :
    (w : World) (setup : Setup) (fuel : ℕ) (resume : Option ResumeFrom) (disk : Disk)
    (env env' : w.State) (e : RunError) (d : Driver)
    → run_graph_flow w setup fuel resume disk env ≡ some (err e, d, env')
    → (drive w setup fuel (starting w setup resume disk) env ≡ some (err e, d, env'))
      ⊎ (e ≡ stack_error "<run-init>" create_dir_failed)
unfolding run_graph_flow
run_graph_flow-err w setup fuel resume disk env env' e d h = elim (Bool-cases (w.init_fails env)) [
  | inl bad ↦
      let same =
        some-injective
          (err (stack_error "<run-init>" create_dir_failed), starting w setup resume disk, env)
          (err e, d, env') (rw (bad, run_graph_flow) at h) in
      inr
        (ground (arith, ap (λ (t : Result RunError GraphRunOutcome × Driver × w.State). t.0) same))
  | inr fine ↦ inl (rw (fine, run_graph_flow) at h)
]

rounds_left-starting :
    (w : World) (setup : Setup) (resume : Option ResumeFrom) (disk : Disk)
    → rounds_left w setup (starting w setup resume disk) < enough
rounds_left-starting w setup none disk = omega arith
rounds_left-starting w setup (some r) disk = omega arith

-- Where human states pause the run, every run of every flow ends within 33 rounds, fresh or resumed,
-- whatever the agents, the commands and the disk do: it returns an outcome or an error.
pub run_graph_flow_ends :
    (w : World) (setup : Setup) (fuel : ℕ) (resume : Option ResumeFrom) (disk : Disk)
    (env : w.State)
    → setup.policy ≡ pause
    → enough ≤ fuel
    → (r : Result RunError GraphRunOutcome) × (d : Driver) × (env' : w.State) × (run_graph_flow w
          setup fuel resume disk env
        ≡ some (r, d, env'))
unfolding run_graph_flow
run_graph_flow_ends w setup fuel resume disk env p low = elim (Bool-cases (w.init_fails env)) [
  | inl bad ↦ (
    err (stack_error "<run-init>" create_dir_failed),
    starting w setup resume disk,
    env,
    rw (bad, run_graph_flow) refl,
  )
  | inr fine ↦
      let (r, d, env', ended) =
        drive_ends w setup fuel (starting w setup resume disk) env p
          (omega (arith, rounds_left-starting w setup resume disk)) in
      (r, d, env', rw (fine, run_graph_flow) ended)
]
