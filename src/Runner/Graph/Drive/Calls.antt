-- ===== src/Runner/Graph/Drive/Calls.antt =====
-- What the calls of a round yield: the verdict on an agent, and the end of a shell command.
use kuromaku.Prelude.{
  ◌∙◌, ℕ, zero, suc, ◌+◌, ◌≤◌, String, ◌≡◌, refl, ap, ◌≢◌, ◌⊎◌, inl, inr, false, Option, none, some,
  List, [], ◌∷◌, find-Member, Member, contains-Member, Bool-cases, Option-cases, arith,
}
use kuromaku.Prelude.Number.{ℤ}
use kuromaku.Prelude.Text.{is_blank}
use kuromaku.Prelude.Result.{Result, ok, err, Result-cases}
use kuromaku.Core.GraphFlow.{SelectEntry}
use kuromaku.Runner.Decision.{AgentDecision, parse_agent_decision, validate_transition}
use kuromaku.Runner.Decision.Choice.{parse_total}
use kuromaku.Runner.Decision.Utf8.{utf8}
use kuromaku.Runner.Graph.Model.{
  Agent, Disk, StepRunResult, RunError, graph_runtime, panicked, unknown_agent, state_not_found,
  cannot_resume, cannot_advance, no_select, empty_select, no_command, no_entry_for_exit,
  no_decision, World, Setup, Driver, Step, continue, stop, GraphRunOutcome,
}
use kuromaku.Runner.Graph.Prompt.{build_state_command}
use kuromaku.Runner.Graph.Shell.{
  targets_of, entry_for, finish_shell, run_shell_state, shell_output, ShellStateOutcome,
}
use kuromaku.Runner.Graph.Ask.{
  attempts, noted, judge, run_state_via_executor, Verdict, accept, retry, give_up,
}

-- Errors that a flow's shape or its bindings cause, and those that no run can end with.
abbrev pub IsStructural : RunError → Type 0
IsStructural (unknown_agent step agent) = Unit
IsStructural panicked = Unit
IsStructural (graph_runtime s state_not_found) = Unit
IsStructural (graph_runtime s cannot_resume) = Unit
IsStructural (graph_runtime s cannot_advance) = Unit
IsStructural (graph_runtime s no_select) = Unit
IsStructural (graph_runtime s empty_select) = Unit
IsStructural (graph_runtime s no_command) = Unit
IsStructural (graph_runtime s (no_entry_for_exit code want)) = Unit
IsStructural (graph_runtime s no_decision) = Unit
IsStructural _ = ⊥

-- `P` of a success, and no structural error where `C` holds.
abbrev pub Yields : {A : Type 0} → (A → Type 0) → Type 0 → Result RunError A → Type 0
Yields P C (ok a) = P a
Yields P C (err e) = C → ¬ IsStructural e

pub Yields-mono :
    {A : Type 0} (P Q : A → Type 0) (C D : Type 0) (r : Result RunError A)
    → ((a : A) → P a → Q a)
    → (D → C)
    → Yields P C r
    → Yields Q D r
Yields-mono P Q C D (ok a) f g h = f a h
Yields-mono P Q C D (err e) f g h = λ d. h (g d)

module _ (w : World) where
  -- `P` of the variables that a round goes on with, `Q` of the result that it stops with.
  abbrev pub Post : (Driver → Type 0) → (Result RunError GraphRunOutcome → Type 0) → Step w → Type 0
  Post P Q (continue d env) = P d
  Post P Q (stop r d env) = Q r

  pub Post-mono :
      (P P' : Driver → Type 0) (Q Q' : Result RunError GraphRunOutcome → Type 0) (step : Step w)
      → ((d : Driver) → P d → P' d)
      → ((r : Result RunError GraphRunOutcome) → Q r → Q' r)
      → Post P Q step
      → Post P' Q' step
  Post-mono P P' Q Q' (continue d env) f g h = f d h
  Post-mono P P' Q Q' (stop r d env) f g h = g r h

-- Each exit code has an entry.
abbrev pub Routed : List SelectEntry → Type 0
Routed entries = (code : ℤ) → entry_for code entries ≢ none

Member-targets :
    (e : SelectEntry) (es : List SelectEntry) → Member e es → Member e.target (targets_of es)
Member-targets e [] m = absurd m
Member-targets e (x ∷ es) (inl here) = inl (ap (λ (y : SelectEntry). y.target) here)
Member-targets e (x ∷ es) (inr m) = inr (Member-targets e es m)

entry_for-Member :
    (code : ℤ) (es : List SelectEntry) {e : SelectEntry}
    → entry_for code es ≡ some e
    → Member e.target (targets_of es)
unfolding entry_for
entry_for-Member code es {e} h = Member-targets e es (find-Member _ es h).0

-- The transition that a result records.
abbrev pub transition_of : StepRunResult → Option String
transition_of r = elim r.record_of.graph_decision [ none ↦ none | some g ↦ some g.transition ]

module _ (w : World) (setup : Setup) (id : String) (entries : List SelectEntry) (command : String)
    (step_num : ℕ) (disk : Disk) where
  -- A shell state moves to one of its targets, and its record is its own.
  abbrev pub ShellDone : ShellStateOutcome → Type 0
  ShellDone o =
      Member o.next_state (targets_of entries)
      × (o.result.step_id ≡ id)
      × (transition_of o.result ≡ some o.next_state)

  finish_shell-Yields :
      (output : String × String × ℤ) (env : w.State)
      → Yields ShellDone
          (Routed entries)
          (finish_shell w setup id entries command step_num disk output env)
  unfolding finish_shell
  finish_shell-Yields (stdout, stderr, code) env = elim (Option-cases (entry_for code entries)) [
    | inl e ↦ rw (e, finish_shell) (λ routed bad. routed code e)
    | inr (entry, e) ↦ rw (e, finish_shell) (ground (arith, entry_for-Member code entries e))
  ]

  pub run_shell_state-Yields :
      (env : w.State)
      → Yields ShellDone
          ((is_blank command ≡ false) × Routed entries)
          (run_shell_state w setup id entries command step_num disk env).0
  unfolding run_shell_state
  run_shell_state-Yields env = elim (Bool-cases (is_blank command)) [
    | inl blank ↦ rw (blank, run_shell_state) (λ c bad. cc)
    | inr shown ↦
        let (run, env') = w.run_shell id command env in
        elim (Result-cases (shell_output run)) [
          | inr (x, e) ↦ rw (shown, run_shell_state, e) (λ c bad. bad)
          | inl (output, e) ↦
              rw (shown, run_shell_state, e)
                (Yields-mono ShellDone ShellDone _ _ _ (λ o h. h) (λ c. c.1)
                  (finish_shell-Yields output env'))
        ]
  ]

Verdict-cases :
    (v : Verdict)
    → ((d : AgentDecision) × (v ≡ accept d))
      ⊎ ((e : RunError) × (v ≡ give_up e))
      ⊎ ((hint : String) × (v ≡ retry hint))
Verdict-cases (accept d) = inl (d, refl)
Verdict-cases (give_up e) = inr (inl (e, refl))
Verdict-cases (retry hint) = inr (inr (hint, refl))

module _ (w : World) (id : String) (agent : Agent) (args allowed : List String) where
  abbrev pub Allowed : AgentDecision × String → Type 0
  Allowed (d, raw) =
      (parse_agent_decision w.from_str (utf8 raw) ≡ some (ok d)) × Member d.transition allowed

  -- The loop gives a decision for a listed target, or an error that is not structural: it is never
  -- left without either.
  abbrev Judged : ℕ → String → Verdict → Type 0
  Judged attempt raw (accept d) = Allowed (d, raw)
  Judged attempt raw (retry note) = attempt ≢ 1
  Judged attempt raw (give_up e) = ¬ IsStructural e

  validated :
      (d : AgentDecision) → validate_transition d allowed ≡ ok tt → Member d.transition allowed
  unfolding validate_transition
  validated d h = contains-Member d.transition allowed (ground arith)

  judge-Judged : (attempt : ℕ) (raw : String) → Judged attempt raw (judge w id allowed attempt raw)
  unfolding judge
  judge-Judged attempt raw =
      let (r, total) = parse_total w.from_str (utf8 raw) in
      elim (Result-cases r) [
        | inr (x, e) ↦ rw (total, judge, e) (ground arith)
        | inl (d, e) ↦ elim (Result-cases (validate_transition d allowed)) [
          | inl (u, v) ↦
              let stepped : judge w id allowed attempt raw ≡ accept d =
                rw (judge, total, e, v) refl in
              rw stepped (total ∙ ap some e, validated d v)
          | inr (x, v) ↦ rw (total, judge, e, v) (ground arith)
        ]
      ]

  run_state-Yields :
      (prompt : String) (attempt : ℕ) (env : w.State)
      → Yields (λ raw. Unit) Unit (run_state_via_executor w id agent prompt args attempt env).0
  unfolding run_state_via_executor build_state_command
  run_state-Yields prompt attempt env = ground arith

  -- Attempts are left, or one attempt has been made: so the loop cannot end without a verdict.
  pub attempts-Yields :
      (base : String) (left attempt : ℕ) (note : Option String) (env : w.State)
      → attempt + left ≡ 2
      → attempt ≤ 1
      → Yields Allowed Unit (attempts w id agent base args allowed left attempt note env).0
  unfolding attempts
  attempts-Yields base zero attempt _ env total low = absurd (omega arith)
  attempts-Yields base (suc left) attempt hint env total low =
      let (r, env') = run_state_via_executor w id agent (noted w base hint) args attempt env in
      elim (Result-cases r) [
        | inr (x, e) ↦ rw (attempts, e) (rw e at (run_state-Yields (noted w base hint) attempt env))
        | inl (raw, e) ↦ elim (Verdict-cases (judge w id allowed attempt raw)) [
          | inl (d, v) ↦ rw (attempts, e, v) (rw v at (judge-Judged attempt raw))
          | inr (inl (x, v)) ↦ rw (attempts, e, v) (λ c. rw v at (judge-Judged attempt raw))
          | inr (inr (hint', v)) ↦
              let again : attempt ≢ 1 = rw v at (judge-Judged attempt raw) in
              rw (attempts, e, v)
                (attempts-Yields base left (suc attempt) (some hint') env' (omega arith)
                  (omega arith))
        ]
      ]

  -- The decision that an agent state goes on with is the one that the reply it stores is read as, and it
  -- names one of the state's targets.
  pub attempts-decision :
      (base raw : String) (d : AgentDecision) (env env' : w.State)
      → attempts w id agent base args allowed 2 0 none env ≡ (ok (d, raw), env')
      → (parse_agent_decision w.from_str (utf8 raw) ≡ some (ok d)) × Member d.transition allowed
  attempts-decision base raw d env env' h =
      rw (ap (λ (t : Result RunError (AgentDecision × String) × w.State). t.0) h) at
        (attempts-Yields base 2 0 none env (omega arith) (omega arith))
