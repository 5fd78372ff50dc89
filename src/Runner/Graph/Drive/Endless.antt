-- ===== src/Runner/Graph/Drive/Endless.antt =====
-- The terminal as the policy for human states: no cap counts their rounds.
use kuromaku.Prelude.{
  ℕ, zero, suc, ◌+◌, String, ◌≡◌, refl, ◌∙◌, sym, inl, inr, true, false, Option, none, some, List,
  [], ◌∷◌, ◌++◌, lookup, head?, Option-cases, arith,
}
use kuromaku.Prelude.Text.{trim_newlines}
use kuromaku.Prelude.Result.{ok}
use kuromaku.Core.GraphFlow.{GraphState, SelectEntry, is_final, is_human}
use kuromaku.Core.Validator.{entries_of}
use kuromaku.Runner.Graph.Model.{World, Setup, Disk, StepRecord, Driver, continue, inline}
use kuromaku.Runner.Graph.Shell.{targets_of}
use kuromaku.Runner.Graph.Disk.{
  step_meta_filename, overwrite, write_run_step, synthesize_human_step_from_local,
}
use kuromaku.Runner.Graph.Human.{human_state, inline_state, inline_handoff}
use kuromaku.Runner.Graph.Drive.{advance, drive, starting, run_graph_flow}

-- A person who answers every prompt with some text, and a disk that always takes the answer.
pub record Answers (w : World) : Type 0 where
  pub reads :
      (id : String) (task : Option String) (targets : List String) (env : w.State)
      → (body : String) × ((w.read_human id task targets env).0 ≡ ok body)
  pub starts : (env : w.State) → w.init_fails env ≡ false
  pub writes : (file : String) (env : w.State) → w.write_fails file env ≡ false
  pub encodes : (r : StepRecord) → w.to_yaml_error r ≡ none

module _ (w : World) (setup : Setup) (answers : Answers w) (s : GraphState) (e : SelectEntry) where
  handoff_continues :
      (body : String) (d : Driver) (env : w.State)
      → d.skip_pause_once ≡ false
      → (d' : Driver) × (env' : w.State) × (inline_handoff w setup d s e body env
          ≡ continue d' env')
        × (d'.current ≡ e.target)
        × (d'.skip_pause_once ≡ false)
  unfolding inline_handoff write_run_step
  handoff_continues body d env skip =
      elim (Option-cases (
        synthesize_human_step_from_local (d.step_num + 1) d.current (w.now env) (trim_newlines body)
          "stdin (interactive)")) [
            | inl silent ↦ (
              record d { current = e.target; prior_state = none },
              env,
              rw (inline_handoff, silent) refl,
              refl,
              skip,
            )
            | inr (stored, typed) ↦ (
              record d {
                current = e.target;
                step_num = d.step_num + 1;
                prior_state = some d.current;
                disk = overwrite stored d.disk ++ stored ∷ [];
              },
              env,
              rw
                  (
                    inline_handoff,
                    typed,
                    write_run_step,
                    answers.starts env,
                    answers.writes stored.entry.output_file env,
                    answers.encodes stored.entry,
                    answers.writes (step_meta_filename stored.number stored.entry.step_id) env,
                  )
                  refl,
              refl,
              skip,
            )
          ]

  round_continues :
      (d : Driver) (env : w.State)
      → setup.policy ≡ inline
      → lookup d.current setup.graph.graph ≡ some s
      → is_final s ≡ false
      → is_human s ≡ true
      → head? (entries_of s) ≡ some e
      → d.skip_pause_once ≡ false
      → (d' : Driver) × (env' : w.State) × (advance w setup d env ≡ continue d' env')
        × (d'.current ≡ e.target)
        × (d'.skip_pause_once ≡ false)
  unfolding advance human_state inline_state
  round_continues d env policy found on human listed skip =
      let (r, env1) = w.read_human d.current s.task (targets_of (entries_of s)) env in
      let (body, typed) = answers.reads d.current s.task (targets_of (entries_of s)) env in
      let (d', env', goes, at, off) = handoff_continues body d env1 skip in
      let at_human : advance w setup d env ≡ human_state w setup d s env =
        rw (advance, found, on, human) refl in
      let at_inline : human_state w setup d s env ≡ inline_state w setup d s env = ground arith in
      let handed : inline_state w setup d s env ≡ inline_handoff w setup d s e body env1 =
        rw (inline_state, listed, typed) refl in
      (d', env', at_human ∙ at_inline ∙ handed ∙ goes, at, off)

  drive_on :
      (fuel : ℕ) (d : Driver) (env : w.State)
      → setup.policy ≡ inline
      → lookup d.current setup.graph.graph ≡ some s
      → is_final s ≡ false
      → is_human s ≡ true
      → head? (entries_of s) ≡ some e
      → e.target ≡ d.current
      → d.skip_pause_once ≡ false
      → drive w setup fuel d env ≡ none
  unfolding drive
  drive_on zero d env policy found on human listed back skip = refl
  drive_on (suc fuel) d env policy found on human listed back skip =
      let (d', env', goes, at, off) = round_continues d env policy found on human listed skip in
      let same : d'.current ≡ d.current = at ∙ back in
      rw (drive, goes)
        (drive_on fuel d' env' policy (rw same found) on human listed (back ∙ sym same) off)

-- Where human states are handled at the terminal, the loop has no bound: a flow that starts at a
-- human state whose first target is that state itself never ends its run, whatever a person
-- types at each prompt, while the terminal answers and the disk takes the steps.
pub run_graph_flow_endless :
    (w : World) (setup : Setup) (s : GraphState) (e : SelectEntry) (fuel : ℕ) (disk : Disk)
    (env : w.State)
    → Answers w
    → setup.policy ≡ inline
    → lookup setup.graph.initial setup.graph.graph ≡ some s
    → is_final s ≡ false
    → is_human s ≡ true
    → head? (entries_of s) ≡ some e
    → e.target ≡ setup.graph.initial
    → run_graph_flow w setup fuel none disk env ≡ none
unfolding run_graph_flow
run_graph_flow_endless w setup s e fuel disk env answers policy found on human listed back =
    rw (answers.starts env, run_graph_flow)
      (drive_on w setup answers s e fuel (starting w setup none disk) env policy found on human
        listed back refl)
