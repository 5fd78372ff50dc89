-- ===== src/Runner/Linear/Run.antt =====
-- `run_steps_with_state` of src/runner/mod.rs.
use kuromaku.Prelude.{ℕ, ◌+◌, none, some, List, [], ◌∷◌, ◌++◌, Assoc, lookup, if◌then◌else◌}
use kuromaku.Config.{Step, is_shell, is_conversation}
use kuromaku.Runner.Graph.Model.{
  Agent, StepRunResult, Disk, create_dir_failed, RunError, unknown_agent, stack_error, World,
}
use kuromaku.Runner.Linear.Model.{
  Context, Calls, StepEnd, finished, failed_with, waiting, agent_map,
}
use kuromaku.Runner.Linear.Steps.{run_shell_step, run_agent_step}
use kuromaku.Runner.Linear.Talk.{run_conversation_step}

-- How a run ends, with the disk that it leaves.
pub data RunEnd : Type 0 where
  done : List StepRunResult → Disk → RunEnd
  aborted : RunError → Disk → RunEnd
  stalled : Disk → RunEnd

module _ (w : World) (c : Calls w) (ctx : Context) where
  unfoldable pub run_step :
      Assoc Agent → Step → (step_num : ℕ) → List StepRunResult → Disk → w.State → StepEnd × w.State
  unfolding is_shell is_conversation lookup run_shell_step run_conversation_step run_agent_step
  run_step agents step step_num results disk env =
      if is_shell step
      then run_shell_step w c ctx step step_num results disk env
      else if is_conversation step
      then run_conversation_step w c ctx step step_num agents disk env
      else elim (lookup step.agent agents) [
        | none ↦ (failed_with (unknown_agent step.id step.agent), env)
        | some agent ↦ run_agent_step w c ctx step step_num agent results disk env
      ]

  -- The loop; `i` steps have run.
  unfoldable pub run_loop :
      Assoc Agent → List Step → (i : ℕ) → List StepRunResult → Disk → w.State → RunEnd
  unfolding run_step
  run_loop agents [] i results disk env = done results disk
  run_loop agents (s ∷ ss) i results disk env =
      let (end, env') = run_step agents s (i + 1) results disk env in
      elim end [
        | finished r disk' ↦ run_loop agents ss (i + 1) (results ++ r ∷ []) disk' env'
        | failed_with e ↦ aborted e disk
        | waiting ↦ stalled disk
      ]

  unfoldable pub run_steps : List Step → List Agent → Disk → w.State → RunEnd
  unfolding run_loop agent_map
  run_steps steps agents disk env =
      if w.init_fails env
      then aborted (stack_error "<run-init>" create_dir_failed) disk
      else run_loop (agent_map agents []) steps 0 [] disk env
