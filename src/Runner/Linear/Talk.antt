-- ===== src/Runner/Linear/Talk.antt =====
-- A conversation step (src/runner/mod.rs): the router with the audit log for a logger. The calls of
-- the logger are made behind the router's.
use kuromaku.Prelude.{
  ℕ, ◌+◌, ◌%◌, ◌^◌, String, Option, none, some, List, [], ◌∷◌, map, Assoc, lookup, if◌then◌else◌,
}
use kuromaku.Prelude.Text.{join}
use kuromaku.Prelude.Number.{pos}
use kuromaku.Prelude.Result.{Result, ok, err}
use kuromaku.Config.{Step}
use kuromaku.Messaging.Audit.{create, record_all}
use kuromaku.Messaging.Router.{
  Router, RouterConfig, default_config, new, add_agent, set_human_input, run, LogEntry,
  TerminationReason, display_reason,
}
use kuromaku.Runner.Graph.Model.{
  claude_cli, Agent, ParticipantStat, StepRecord, Disk, write_failed, RunError, unknown_agent,
  stack_error, conversation_unsupported_backend, conversation_spawn, World,
}
use kuromaku.Runner.Graph.Prompt.{same_backend}
use kuromaku.Runner.Graph.Disk.{step_content_filename}
use kuromaku.Runner.Linear.Model.{
  Context, Calls, transports, audit_world, StepEnd, failed_with, waiting,
}
use kuromaku.Runner.Linear.Transcript.{render_transcript, count_agent_turns}
use kuromaku.Runner.Linear.Steps.{build_user_prompt, result_of, stored}

-- The first agent that is not known ends the step.
unfoldable pub participants_of :
    Assoc Agent → (step : String) → List String → Result RunError (List Agent)
unfolding lookup
participants_of agents step [] = ok []
participants_of agents step (id ∷ ids) =
    let rest = participants_of agents step ids in
    elim (lookup id agents) [
      | none ↦ err (unknown_agent step id)
      | some a ↦ elim rest [ err e ↦ err e | ok others ↦ ok (a ∷ others) ]
    ]

unfoldable pub backend_gate : (step : String) → List Agent → Option RunError
backend_gate step [] = none
backend_gate step (a ∷ rest) =
    if same_backend a.backend claude_cli
    then backend_gate step rest
    else some (conversation_unsupported_backend step a.id a.backend)

abbrev pub router_config : Step → RouterConfig
router_config step = record {
  max_turns = elim step.max_turns [ none ↦ default_config.max_turns | some n ↦ n ];
  turn_timeout = elim step.turn_timeout [ none ↦ default_config.turn_timeout | some n ↦ n ];
}

abbrev pub agent_ids : List Agent → List String
agent_ids = map (λ (a : Agent). a.id)

abbrev pub stats : List LogEntry → List Agent → List ParticipantStat
stats log [] = []
stats log (a ∷ rest) =
    record { agent = a.id; model = a.model; turns = count_agent_turns log a.id } ∷ stats log rest

-- `.map(|p| p.turns as u32).sum()`, as it wraps.
abbrev pub total_turns : List ParticipantStat → ℕ
total_turns [] = 0
total_turns (p ∷ ps) = (p.turns % 2 ^ 32 + total_turns ps) % 2 ^ 32

abbrev pub conversation_record :
    Step → ℕ → List LogEntry → TerminationReason → List Agent → (messages : ℕ) → StepRecord
conversation_record step step_num log reason participants messages = record {
  step_id = step.id;
  kind = "conversation";
  agent = none;
  model_requested = none;
  model_actual = none;
  backend = "claude-cli";
  exit_code = pos 0;
  input_steps = step.input;
  output_file = step_content_filename step_num step.id "md";
  participants = stats log participants;
  turns = some (total_turns (stats log participants));
  messages = some messages;
  terminated_by = some (display_reason reason);
  graph_decision = none;
}

module _ (w : World) (c : Calls w) (ctx : Context) where
  -- Each agent's transport, in turn; the first that does not start ends the step.
  unfoldable pub spawn_all :
      (step : String) → List Agent → Router → w.State → Result RunError Router × w.State
  unfolding add_agent
  spawn_all step [] r env = (ok r, env)
  spawn_all step (a ∷ rest) r env =
      let (failure, env') = c.spawn step a.id env in
      let on = spawn_all step rest (add_agent a.id r) env' in
      elim failure [ some e ↦ (err (conversation_spawn step a.id e), env') | none ↦ on ]

  unfoldable pub opened_router : Step → w.State → Router
  unfolding new set_human_input
  opened_router step env =
      let r = new (router_config step) in if c.human_channel env then set_human_input r else r

  -- Behind the conversation: the transcript and the summary are written.
  unfoldable pub close_conversation :
      Step
      → ℕ
      → List Agent
      → Option TerminationReason × List LogEntry
      → Disk
      → w.State
      → StepEnd × w.State
  unfolding record_all render_transcript stored count_agent_turns
  close_conversation step step_num participants (none, log) disk env = (waiting, env)
  close_conversation step step_num participants (some reason, log) disk env =
      let (writer, env') = record_all c.codec (audit_world w c) log create env in
      let r = conversation_record step step_num log reason participants writer.count in
      (
        stored w step_num step r (render_transcript log reason (agent_ids participants))
            (result_of ctx step (join ", " (agent_ids participants)) "conversation" r) disk env',
        env',
      )

  unfoldable pub converse_step :
      Step → ℕ → List Agent → (seed : String) → Router → Disk → w.State → StepEnd × w.State
  unfolding run close_conversation
  converse_step step step_num participants seed r disk env =
      close_conversation step step_num participants
        (run (transports w c) r (some seed) (c.events step.id env) env) disk (c.settled step.id env)

  unfoldable pub start_conversation :
      Step → ℕ → List Agent → (seed : String) → Disk → w.State → StepEnd × w.State
  unfolding spawn_all opened_router converse_step
  start_conversation step step_num participants seed disk env =
      let (r, env') = spawn_all step.id participants (opened_router step env) env in
      elim r [
        | err e ↦ (failed_with e, env')
        | ok router ↦ converse_step step step_num participants seed router disk env'
      ]

  unfoldable pub run_conversation_step : Step → ℕ → Assoc Agent → Disk → w.State → StepEnd × w.State
  unfolding participants_of backend_gate build_user_prompt start_conversation
  run_conversation_step step step_num agents disk env =
      elim (participants_of agents step.id step.agents) [
        | err e ↦ (failed_with e, env)
        | ok participants ↦ elim (backend_gate step.id participants) [
          | some e ↦ (failed_with e, env)
          | none ↦ elim (build_user_prompt w ctx.task step disk env) [
            | err e ↦ (failed_with e, env)
            | ok seed ↦
                if c.opens_log step.id env
                then start_conversation step step_num participants seed disk env
                else (failed_with (stack_error step.id write_failed), env)
          ]
        ]
      ]
