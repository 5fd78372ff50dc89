-- ===== src/Runner/Graph/Drive/Round.antt =====
-- What one round of the loop does: where it goes on to, and with which errors it can stop.
use kuromaku.Prelude.{
  ◌+◌, ◌≤◌, String, ◌≡◌, refl, inl, inr, true, false, none, some, List, [], ◌∷◌, ◌++◌, lookup,
  insert, Member, ltb, Bool-cases, Option-cases, arith,
}
use kuromaku.Prelude.Text.{is_blank}
use kuromaku.Prelude.Result.{Result, Result-cases}
use kuromaku.Core.GraphFlow.{GraphState, SelectEntry, is_shell}
use kuromaku.Runner.Graph.Model.{
  Agent, StepRunResult, RunError, World, Setup, Driver, GraphRunOutcome, default_max_steps,
  default_max_visits_per_state,
}
use kuromaku.Runner.Decision.{AgentDecision}
use kuromaku.Runner.Graph.Disk.{write_run_step}
use kuromaku.Runner.Graph.Shell.{targets_of, run_shell_state}
use kuromaku.Runner.Graph.Ask.{attempts}
use kuromaku.Runner.Graph.Prompt.{build_menu, build_state_user_prompt, resolve_state_extra_args}
use kuromaku.Runner.Graph.Working.{
  record_decision, ask_agent, agent_state, shell_state, working_state, prior_context, fail,
  command_of, visits_of, agent_record, agent_result,
}
use kuromaku.Runner.Graph.Drive.Calls.{
  Yields, Yields-mono, Post, Post-mono, Routed, run_shell_state-Yields, attempts-Yields,
  transition_of,
}

-- A state has run: one result is added, and the driver stands at one of the targets.
pub record Worked (d d' : Driver) (entries : List SelectEntry) : Type 0 where
  pub result : StepRunResult
  pub appended : d'.results ≡ d.results ++ result ∷ []
  pub ran_at : result.step_id ≡ d.current
  pub moved : Member d'.current (targets_of entries)
  pub chose : transition_of result ≡ some d'.current
  pub counted : d'.step_num ≡ d.step_num
  pub visited : d'.visits ≡ d.visits
  pub skips : d'.skip_pause_once ≡ d.skip_pause_once

-- The round stops with an error, which is not structural where `C` holds.
abbrev pub Fails : Type 0 → Result RunError GraphRunOutcome → Type 0
Fails = Yields (λ outcome. ⊥)

pub Fails-mono :
    (C D : Type 0) (r : Result RunError GraphRunOutcome) → (D → C) → Fails C r → Fails D r
Fails-mono C D r f h = Yields-mono (λ outcome. ⊥) (λ outcome. ⊥) C D r (λ a bad. bad) f h

-- The state has an agent.
abbrev pub Bound : Setup → String → Type 0
Bound setup id =
    (agent_id : String) × (lookup id setup.state_to_agent ≡ some agent_id)
    × (agent : Agent) × (lookup agent_id setup.agents_by_id ≡ some agent)

module _ (w : World) (setup : Setup) (d : Driver) (s : GraphState)
    (entries : List SelectEntry) where
  abbrev WorkedHere : Driver → Type 0
  WorkedHere d' = Worked d d' entries

  shell_state-Post :
      (env : w.State)
      → Post w WorkedHere
          (Fails ((is_blank (command_of s) ≡ false) × Routed entries))
          (shell_state w setup d s entries env)
  unfolding shell_state fail
  shell_state-Post env =
      let (r, env') =
        run_shell_state w setup d.current entries (command_of s) d.step_num d.disk env in
      let y =
        run_shell_state-Yields w setup d.current entries (command_of s) d.step_num d.disk env in
      elim (Result-cases r) [
        | inr (x, e) ↦ rw (shell_state, e) (rw e at y)
        | inl (o, e) ↦
            let (moved, own, chose) = rw e at y in
            rw (shell_state, e)
              (record {
                result = o.result;
                appended = refl;
                ran_at = own;
                moved = moved;
                chose = chose;
                counted = refl;
                visited = refl;
                skips = refl;
              })
      ]

  record_decision-Post :
      (agent : Agent) (decision : AgentDecision) (raw : String) (env : w.State)
      → Member decision.transition (targets_of entries)
      → Post w WorkedHere (Fails Unit) (record_decision w setup d entries agent decision raw env)
  unfolding record_decision fail
  record_decision-Post agent decision raw env m =
      let r = agent_record d entries agent decision in
      elim (Result-cases
        (write_run_step w (record { number = d.step_num; entry = r; content = raw }) d.disk env)) [
          | inr (x, e) ↦ rw (record_decision, e) (λ c bad. bad)
          | inl (disk, e) ↦
              rw (record_decision, e)
                (record {
                  result = agent_result setup.run_id agent r;
                  appended = refl;
                  ran_at = refl;
                  moved = m;
                  chose = refl;
                  counted = refl;
                  visited = refl;
                  skips = refl;
                })
        ]

  prior_context-Yields : (env : w.State) → Yields (λ c. Unit) Unit (prior_context w setup d env)
  unfolding prior_context
  prior_context-Yields env = ground arith

  ask_agent-Post :
      (agent : Agent) (env : w.State)
      → Post w WorkedHere (Fails Unit) (ask_agent w setup d s entries agent env)
  unfolding ask_agent fail
  ask_agent-Post agent env = elim (Result-cases (prior_context w setup d env)) [
    | inr (x, e) ↦ rw (ask_agent, e) (rw e at (prior_context-Yields env))
    | inl (context, e) ↦
        let prompt =
          build_state_user_prompt setup.task s.task context (build_menu d.current entries) in
        let args = resolve_state_extra_args s agent agent.backend in
        let (r, env') = attempts w d.current agent prompt args (targets_of entries) 2 0 none env in
        let y =
          attempts-Yields w d.current agent args (targets_of entries) prompt 2 0 none env
            (omega arith) (omega arith) in
        elim (Result-cases r) [
          | inr (x, f) ↦ rw (ask_agent, e, f) (rw f at y)
          | inl ((decision, raw), f) ↦
              rw (ask_agent, e, f) (record_decision-Post agent decision raw env' (rw f at y).1)
        ]
  ]

  agent_state-Post :
      (env : w.State)
      → Post w WorkedHere (Fails (Bound setup d.current)) (agent_state w setup d s entries env)
  unfolding agent_state fail
  agent_state-Post env = elim (Option-cases (lookup d.current setup.state_to_agent)) [
    | inl e ↦ rw (agent_state, e) (λ bound bad. let (agent_id, found, agent, known) = bound in cc)
    | inr (agent_id, e) ↦ elim (Option-cases (lookup agent_id setup.agents_by_id)) [
      | inl f ↦
          rw (agent_state, e, f) (λ bound bad. let (agent_id', found, agent, known) = bound in cc)
      | inr (agent, f) ↦
          let stepped : agent_state w setup d s entries env
              ≡ ask_agent w setup d s entries agent env =
            rw (agent_state, e, f) refl in
          rw stepped (
            Post-mono w WorkedHere WorkedHere (Fails Unit) (Fails (Bound setup d.current)) _
              (λ d' h. h) (λ r h. Fails-mono Unit (Bound setup d.current) r (λ c. tt) h)
              (ask_agent-Post agent env))
    ]
  ]

-- A working state has run: the counters are up by one, within their caps.
pub record Counted (d d' : Driver) (entries : List SelectEntry) : Type 0 where
  pub result : StepRunResult
  pub appended : d'.results ≡ d.results ++ result ∷ []
  pub ran_at : result.step_id ≡ d.current
  pub moved : Member d'.current (targets_of entries)
  pub chose : transition_of result ≡ some d'.current
  pub counted : d'.step_num ≡ d.step_num + 1
  pub visited : d'.visits ≡ insert d.current (visits_of d.visits d.current + 1) d.visits
  pub skips : d'.skip_pause_once ≡ d.skip_pause_once
  pub within_steps : d.step_num + 1 ≤ default_max_steps
  pub within_visits : visits_of d.visits d.current + 1 ≤ default_max_visits_per_state

-- The state can be worked on: its command is routed, or it has an agent.
abbrev pub Ready : Setup → String → GraphState → List SelectEntry → Type 0
Ready setup id s entries =
    (is_shell s ≡ true → (is_blank (command_of s) ≡ false) × Routed entries)
    × (is_shell s ≡ false → Bound setup id)

module _ (w : World) (setup : Setup) (d : Driver) (s : GraphState)
    (entries : List SelectEntry) where
  abbrev entered : Driver
  entered = record d {
    step_num = d.step_num + 1;
    visits = insert d.current (visits_of d.visits d.current + 1) d.visits;
  }

  Counted-Worked :
      (d' : Driver)
      → d.step_num + 1 ≤ default_max_steps
      → visits_of d.visits d.current + 1 ≤ default_max_visits_per_state
      → Worked entered d' entries
      → Counted d d' entries
  Counted-Worked d' steps visits k = record {
    result = k.result;
    appended = k.appended;
    ran_at = k.ran_at;
    moved = k.moved;
    chose = k.chose;
    counted = k.counted;
    visited = k.visited;
    skips = k.skips;
    within_steps = steps;
    within_visits = visits;
  }

  pub working_state-Post :
      (env : w.State)
      → Post w
          (λ d'. Counted d d' entries)
          (Fails (Ready setup d.current s entries))
          (working_state w setup d s entries env)
  unfolding working_state fail
  working_state-Post env = elim (Bool-cases (ltb default_max_steps (d.step_num + 1))) [
    | inl over ↦ rw (working_state, over) (λ c bad. bad)
    | inr under ↦
        elim (Bool-cases (ltb default_max_visits_per_state (visits_of d.visits d.current + 1))) [
          | inl many ↦ rw (working_state, under, many) (λ c bad. bad)
          | inr few ↦
              let keep = λ (d' : Driver). Counted-Worked d' (ground arith) (ground arith) in
              elim (Bool-cases (is_shell s)) [
                | inl shell ↦
                    let stepped : working_state w setup d s entries env
                        ≡ shell_state w setup entered s entries env =
                      rw (working_state, under, few, shell) refl in
                    rw stepped (
                      Post-mono w _ _ _ _ _ keep
                        (λ r h.
                          Fails-mono _ _ r (λ (c : Ready setup d.current s entries). c.0 shell) h)
                        (shell_state-Post w setup entered s entries env))
                | inr agent ↦
                    let stepped : working_state w setup d s entries env
                        ≡ agent_state w setup entered s entries env =
                      rw (working_state, under, few, agent) refl in
                    rw stepped (
                      Post-mono w _ _ _ _ _ keep
                        (λ r h.
                          Fails-mono _ _ r (λ (c : Ready setup d.current s entries). c.1 agent) h)
                        (agent_state-Post w setup entered s entries env))
              ]
        ]
  ]
