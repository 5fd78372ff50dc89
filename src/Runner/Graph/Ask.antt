-- ===== src/Runner/Graph/Ask.antt =====
-- How a state asks its agent in src/runner/graph.rs: one call, and one more after a bad reply.
use kuromaku.Prelude.{ℕ, zero, suc, String, Option, none, some, List, ◌==◌, if◌then◌else◌}
use kuromaku.Prelude.Text.{◌<>◌}
use kuromaku.Prelude.Result.{Result, ok, err}
use kuromaku.Runner.Decision.{
  AgentDecision, unknown_transition, parse_agent_decision, validate_transition,
}
use kuromaku.Runner.Decision.Utf8.{utf8}
use kuromaku.Runner.Graph.Model.{
  Agent, RunError, graph_runtime, executor_failed, panicked, unknown_twice, unparsable_twice,
  no_decision, World,
}
use kuromaku.Runner.Graph.Prompt.{
  malformed_retry_note, unknown_edge_retry_note, build_state_command,
}

pub data Verdict : Type 0 where
  accept : AgentDecision → Verdict
  retry : (note : String) → Verdict
  give_up : RunError → Verdict

module _ (w : World) where
  unfoldable pub run_state_via_executor :
      (state_id : String)
      → Agent
      → (user_prompt : String) → List String
      → ℕ
      → w.State
      → Result RunError String × w.State
  run_state_via_executor state_id agent user_prompt args attempt env =
      elim (build_state_command agent.backend agent.model (w.system_prompt agent) user_prompt args
        state_id) [
          | err e ↦ (err e, env)
          | ok command ↦
              let (r, env') = w.run_agent state_id attempt command env in
              elim r [ ok raw ↦ (ok raw, env') | err e ↦ (err (executor_failed state_id e), env') ]
        ]

  -- What one reply leads to; the second bad reply ends the run.
  unfoldable pub judge :
      (state_id : String) → List String → (attempt : ℕ) → (raw : String) → Verdict
  judge state_id allowed attempt raw = elim (parse_agent_decision w.from_str (utf8 raw)) [
    | none ↦ give_up panicked
    | some (err e) ↦
        if attempt == 1
        then give_up (graph_runtime state_id (unparsable_twice e))
        else retry (malformed_retry_note e)
    | some (ok d) ↦ elim (validate_transition d allowed) [
      | ok _ ↦ accept d
      | err (unknown_transition value _) ↦
          if attempt == 1
          then give_up (graph_runtime state_id (unknown_twice value allowed))
          else retry (unknown_edge_retry_note value allowed)
    ]
  ]

  abbrev pub noted : String → Option String → String
  noted base none = base
  noted base (some note) = base <> note

  -- The loop over the attempts, `left` of them.
  unfoldable pub attempts :
      (state_id : String)
      → Agent
      → (base_prompt : String) → List String
      → List String
      → (left attempt : ℕ) → Option String
      → w.State
      → Result RunError (AgentDecision × String) × w.State
  attempts state_id agent base_prompt args allowed zero attempt _ env =
      (err (graph_runtime state_id no_decision), env)
  attempts state_id agent base_prompt args allowed (suc left) attempt note env =
      let (r, env') =
        run_state_via_executor state_id agent (noted base_prompt note) args attempt env in
      elim r [
        | err e ↦ (err e, env')
        | ok raw ↦ elim (judge state_id allowed attempt raw) [
          | accept d ↦ (ok (d, raw), env')
          | give_up e ↦ (err e, env')
          | retry note' ↦
              attempts state_id agent base_prompt args allowed left (suc attempt) (some note') env'
        ]
      ]
