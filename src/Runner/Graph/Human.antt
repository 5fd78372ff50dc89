-- ===== src/Runner/Graph/Human.antt =====
-- The rounds of `run_graph_flow` at a human state: the run is paused, resumed, or goes on with what a
-- person types (src/runner/graph.rs).
use kuromaku.Prelude.{◌+◌, String, false, none, some, head?, if◌then◌else◌}
use kuromaku.Prelude.Text.{trim_newlines}
use kuromaku.Prelude.Result.{ok, err}
use kuromaku.Core.GraphFlow.{GraphState, SelectEntry}
use kuromaku.Core.Validator.{entries_of}
use kuromaku.Runner.Graph.Model.{
  graph_runtime, stack_error, cannot_resume, cannot_advance, input_failed, World, Setup, pause,
  inline, paused, Driver, Step, continue, stop,
}
use kuromaku.Runner.Graph.Disk.{write_run_step, synthesize_human_step_from_local}
use kuromaku.Runner.Graph.Shell.{targets_of}
use kuromaku.Runner.Graph.Working.{fail}

module _ (w : World) (setup : Setup) where
  -- `skip_pause_once`: the state that the run was paused at is passed by its first entry.
  unfoldable pub resume_past : Driver → GraphState → w.State → Step w
  unfolding fail
  resume_past d s env = elim (head? (entries_of s)) [
    | none ↦
        fail w setup (record d { skip_pause_once = false }) env
          (graph_runtime d.current cannot_resume)
    | some e ↦
        continue
          (record d {
            current = e.target;
            skip_pause_once = false;
            human_input_step_id = none;
            prior_state = d.human_input_step_id;
          })
          env
  ]

  -- The inline prompt: the input becomes a step of its own, unless it is empty.
  unfoldable pub inline_handoff :
      Driver → GraphState → SelectEntry → (body : String) → w.State → Step w
  unfolding fail
  inline_handoff d s e body env =
      elim (synthesize_human_step_from_local (d.step_num + 1) d.current (w.now env)
        (trim_newlines body) "stdin (interactive)") [
          | none ↦ continue (record d { current = e.target; prior_state = none }) env
          | some stored ↦ elim (write_run_step w stored d.disk env) [
            | err x ↦ fail w setup d env (stack_error d.current x)
            | ok disk ↦
                continue
                  (record d {
                    current = e.target;
                    step_num = d.step_num + 1;
                    prior_state = some d.current;
                    disk = disk;
                  })
                  env
          ]
        ]

  unfoldable pub inline_state : Driver → GraphState → w.State → Step w
  unfolding fail
  inline_state d s env = elim (head? (entries_of s)) [
    | none ↦ fail w setup d env (graph_runtime d.current cannot_advance)
    | some e ↦
        let (r, env') = w.read_human d.current s.task (targets_of (entries_of s)) env in
        elim r [
          | err x ↦ fail w setup d env' (graph_runtime d.current (input_failed x))
          | ok body ↦ inline_handoff d s e body env'
        ]
  ]

  unfoldable pub human_state : Driver → GraphState → w.State → Step w
  human_state d s env = if d.skip_pause_once then resume_past d s env else elim setup.policy [
    | pause ↦ stop (ok (paused d.results d.current)) d env
    | inline ↦ inline_state d s env
  ]
