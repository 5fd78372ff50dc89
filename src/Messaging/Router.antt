-- ===== src/Messaging/Router.antt =====
-- src/messaging/router.rs: the router that relays messages between agents and a person. The branch
-- that `select!` takes in each round is an event, and the log is the list of the entries that the
-- logger was called with. Reader tasks only produce events, and are left out.
pub mod Rule
pub mod Log
pub mod Broadcast
pub mod Turns
pub mod Convergence
mod Tests
use kuromaku.Prelude.{
  ℕ, zero, suc, ◌+◌, String, Bool, true, false, ◌&&◌, Option, none, some, List, [], ◌∷◌, ◌++◌,
  length, Assoc, insert, str_eq, ltb, leb, ◌==◌, if◌then◌else◌,
}
use kuromaku.Prelude.Text.{◌<>◌, trim}
use kuromaku.Prelude.Result.{Result, ok, err}

-- What a transport delivers: src/executor/stream_json.rs.
pub data Fragment : Type 0 where
  text : String → Fragment
  tool_use : (name : String) → Fragment
  result : String → Fragment

pub data Source : Type 0 where
  agent : (id : String) → Source
  human : Source
  router : Source

unfoldable pub display_source : Source → String
display_source (agent id) = id
display_source human = "user"
display_source router = "router"

pub data MessageKind : Type 0 where
  partial : MessageKind
  tool_use : (name : String) → MessageKind
  final : MessageKind

pub data TerminationReason : Type 0 where
  max_turns convergence timeout human_closed all_agents_closed : TerminationReason

unfoldable pub display_reason : TerminationReason → String
display_reason max_turns = "max_turns"
display_reason convergence = "convergence"
display_reason timeout = "timeout"
display_reason human_closed = "human_closed"
display_reason all_agents_closed = "all_agents_closed"

pub data LogKind : Type 0 where
  inbound : (content : String) (message : MessageKind) → LogKind
  outbound : (to content : String) → LogKind
  send_failed : (to error : String) → LogKind
  termination : TerminationReason → LogKind

pub record LogEntry : Type 0 where
  pub from : Source
  pub kind : LogKind

pub record RouterConfig : Type 0 where
  pub max_turns : ℕ
  pub turn_timeout : ℕ

-- The timeout is in seconds.
abbrev pub default_config : RouterConfig
default_config = record { max_turns = 20; turn_timeout = 600 }

-- An agent is its id: its transport is reached by `Transports`.
pub record Router : Type 0 where
  pub agents : List String
  pub human_input : Bool
  pub config : RouterConfig

unfoldable pub new : RouterConfig → Router
new config = record { agents = []; human_input = false; config = config }

unfoldable pub add_agent : String → Router → Router
add_agent id r = record r { agents = r.agents ++ id ∷ [] }

unfoldable pub set_human_input : Router → Router
set_human_input r = record r { human_input = true }

-- The branches of `select!`: the timer, the agents' channel, and the person's channel.
pub data Event : Type 0 where
  elapsed : Event
  agents_done : Event
  agent_said : (from : String) → Fragment → Event
  human_said : (content : String) → Event
  human_done : Event

abbrev pub offered : Router → Event → Bool
offered r (human_said content) = r.human_input
offered r human_done = r.human_input
offered r _ = true

unfoldable pub fragment_text : Fragment → String
fragment_text (text s) = s
fragment_text (tool_use name) = "[tool: " <> name <> "]"
fragment_text (result s) = s

unfoldable pub message_kind : Fragment → MessageKind
message_kind (text s) = partial
message_kind (tool_use name) = tool_use name
message_kind (result s) = final

-- The transports of the agents: the send of each, with the error as it is shown.
pub record Transports : Type 1 where
  pub State : Type 0
  pub send : (to content : String) → State → Result String (Unit {0}) × State

abbrev pub is_sender : Option String → String → Bool
is_sender none id = false
is_sender (some sender) id = str_eq id sender

abbrev pub done_text : String
done_text = "DONE"

unfoldable pub all_done : Assoc String → Bool
unfolding trim
all_done [] = true
all_done ((id, t) ∷ m) = str_eq (trim t) done_text && all_done m

-- `n_agents > 0 && last_result.len() == n_agents && …`.
unfoldable pub converged : List String → Assoc String → Bool
unfolding all_done
converged agents last_result =
    ltb 0 (length agents) && (length last_result == length agents) && all_done last_result

module _ (t : Transports) where
  -- The log, and the transports.
  abbrev pub Links : Type 0
  Links = List LogEntry × t.State

  unfoldable pub deliver : (content to : String) → Links → Links
  deliver content to (log, state) =
      let (sent, state') = t.send to content state in
      let kind : LogKind = elim sent [ ok _ ↦ outbound to content | err e ↦ send_failed to e ] in
      (log ++ record { from = router; kind = kind } ∷ [], state')

  unfoldable pub broadcast :
      (agents : List String) (content : String) → Option String → Links → Links
  broadcast [] content except links = links
  broadcast (id ∷ ids) content except links =
      broadcast ids content except (if is_sender except id then links else deliver content id links)

  -- The variables of the loop.
  pub record Conversation : Type 0 where
    pub turn_count : ℕ
    pub last_result : Assoc String
    pub links : Links

  pub data Round : Type 0 where
    next : Conversation → Round
    stop : TerminationReason → Conversation → Round

  abbrev pub logged : LogEntry → Conversation → Conversation
  logged e c = record c { links = (c.links.0 ++ e ∷ [], c.links.1) }

  -- A result: it is relayed before the ends of the conversation are tested.
  unfoldable pub relay_result : Router → (from content : String) → Conversation → Round
  relay_result r from content c =
      let c' : Conversation = record {
        turn_count = c.turn_count + 1;
        last_result = insert from content c.last_result;
        links = broadcast r.agents content (some from) c.links;
      } in
      if leb r.config.max_turns c'.turn_count
      then stop max_turns c'
      else if converged r.agents c'.last_result
      then stop convergence c'
      else next c'

  unfoldable pub relay_fragment : Router → (from : String) → Fragment → Conversation → Round
  relay_fragment r from (text s) c = next c
  relay_fragment r from (tool_use name) c = next c
  relay_fragment r from (result s) c = relay_result r from s c

  unfoldable pub relay_human : Router → (content : String) → Conversation → Conversation
  relay_human r content c = record c {
    last_result = [];
    links = broadcast r.agents content none c.links;
  }

  unfoldable pub on_event : Router → Event → Conversation → Round
  unfolding fragment_text message_kind
  on_event r elapsed c = stop timeout c
  on_event r agents_done c = stop all_agents_closed c
  on_event r (agent_said from f) c =
      relay_fragment r from f
        (logged (record { from = agent from; kind = inbound (fragment_text f) (message_kind f) }) c)
  on_event r (human_said content) c =
      next
        (relay_human r content (logged (record { from = human; kind = inbound content final }) c))
  on_event r human_done c = stop human_closed c

  -- Without a person's channel its branch is never taken.
  unfoldable pub handle : Router → Event → Conversation → Round
  handle r e c = if offered r e then on_event r e c else next c

  -- The loop, as far as the events go: without a reason it still waits for the next one.
  unfoldable pub converse :
      Router → List Event → Conversation → Option TerminationReason × Conversation
  converse r [] c = (none, c)
  converse r (e ∷ es) c = elim (handle r e c) [
    | next c' ↦ converse r es c'
    | stop reason c' ↦ (some reason, c')
  ]

  abbrev pub seeded : Router → Option String → t.State → Links
  seeded r none state = ([], state)
  seeded r (some prompt) state = broadcast r.agents prompt none ([], state)

  abbrev pub opened : Router → Option String → t.State → Conversation
  opened r prompt state = record { turn_count = 0; last_result = []; links = seeded r prompt state }

  abbrev pub closed : Option TerminationReason → List LogEntry → List LogEntry
  closed none log = log
  closed (some reason) log = log ++ record { from = router; kind = termination reason } ∷ []

  -- The reason for which the conversation ended, and the log.
  unfoldable pub run :
      Router
      → (initial_prompt : Option String) → List Event
      → t.State
      → Option TerminationReason × List LogEntry
  run r initial_prompt events state =
      let (reason, c) = converse r events (opened r initial_prompt state) in
      (reason, closed reason c.links.0)
