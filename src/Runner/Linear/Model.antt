-- ===== src/Runner/Linear/Model.antt =====
-- What the linear runner is given, and what it calls besides the calls of the state machine's driver.
use kuromaku.Prelude.{String, Bool, Option, List, Assoc, insert, [], ◌∷◌}
use kuromaku.Prelude.Result.{Result}
use kuromaku.Config.{PostCommentTarget}
use kuromaku.Messaging.Audit as Audit
use kuromaku.Messaging.Router.{Event, Transports}
use kuromaku.Runner.Graph.Model.{Agent, StepRunResult, Disk, RunError, ExecutorError, World}

-- `RunContext`, without its paths, times and caches.
pub record Context : Type 0 where
  pub run_id : String
  pub task : String
  pub template_vars : Assoc String

-- The API client, `gh`, `sh`, the transports of a conversation, the person and the audit file.
pub record Calls (w : World) : Type 1 where
  pub call_api : (step model system user : String) → w.State → Result String String × w.State
  pub run_command : (step command : String) → w.State → Result ExecutorError String × w.State
  pub poster :
      PostCommentTarget → (number body : String) → w.State → Result String (Unit {0}) × w.State
  pub opens_log : (step : String) → w.State → Bool
  pub human_channel : w.State → Bool
  pub spawn : (step agent : String) → w.State → Option String × w.State
  pub send : (to content : String) → w.State → Result String (Unit {0}) × w.State
  pub events : (step : String) → w.State → List Event
  -- The state of the world when the conversation is over.
  pub settled : (step : String) → w.State → w.State
  pub codec : Audit.Codec
  pub ulid : w.State → String × w.State
  pub time : w.State → String × w.State
  pub write : String → w.State → Option Audit.Torn × w.State
  pub flush : w.State → Option String × w.State

abbrev pub transports : (w : World) → Calls w → Transports
transports w c = record { State = w.State; send = c.send }

abbrev pub audit_world : (w : World) → Calls w → Audit.World
audit_world w c = record {
  State = w.State;
  ulid = c.ulid;
  now = c.time;
  write = c.write;
  flush = c.flush;
}

-- How a step ends; a conversation may wait for ever.
pub data StepEnd : Type 0 where
  finished : StepRunResult → Disk → StepEnd
  failed_with : RunError → StepEnd
  waiting : StepEnd

-- `agents.iter().map(|a| (a.id, a)).collect()`.
unfoldable pub agent_map : List Agent → Assoc Agent → Assoc Agent
unfolding insert
agent_map [] m = m
agent_map (a ∷ rest) m = agent_map rest (insert a.id a m)
