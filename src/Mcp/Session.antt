-- ===== src/Mcp/Session.antt =====
-- src/mcp/session.rs, send_message of src/mcp/messaging.rs, and the published routers of a run (flow_api in
-- src/runner/mod.rs). Runs share their state with whoever holds an `ActiveRouter`: a run is a number, and
-- `RunStates` is the store of what each has published. Channels are tokio's: `Mpsc` is their sending, and a
-- channel is a number. A lock is held for one access at a time, and no access panics.
pub mod Slots
pub mod Sending
mod Tests
use kuromaku.Prelude.{
  ℕ, ◌+◌, ◌%◌, ◌^◌, String, Bool, Option, none, some, List, [], ◌∷◌, length, ltb, ◌==◌,
  if◌then◌else◌,
}
use kuromaku.Prelude.Text.{is_empty, trim}
use kuromaku.Prelude.Result.{Result, ok, err, ◌>>=◌}

-- `RunState::active_router` of each run.
abbrev pub RunStates : Type 0
RunStates = ℕ → Option ℕ

unfoldable pub set_router : (run channel : ℕ) → RunStates → RunStates
set_router run channel states r = if r == run then some channel else states r

unfoldable pub clear_router : (run : ℕ) → RunStates → RunStates
clear_router run states r = if r == run then none else states r

pub record SessionState : Type 0 where
  pub runs : List (ℕ × ℕ)
  pub next_id : ℕ

abbrev pub new : SessionState
new = record { runs = []; next_id = 0 }

-- `BTreeMap::insert` and `remove`: the entries stand in the order of their keys.
unfoldable pub insert_slot : ℕ → ℕ → List (ℕ × ℕ) → List (ℕ × ℕ)
insert_slot k v [] = (k, v) ∷ []
insert_slot k v ((j, w) ∷ m) =
    let rest = insert_slot k v m in
    if ltb k j then (k, v) ∷ (j, w) ∷ m else if k == j then (k, v) ∷ m else (j, w) ∷ rest

unfoldable pub remove_slot : ℕ → List (ℕ × ℕ) → List (ℕ × ℕ)
remove_slot k [] = []
remove_slot k ((j, w) ∷ m) = let rest = remove_slot k m in if k == j then m else (j, w) ∷ rest

unfoldable pub register : (run : ℕ) → SessionState → ℕ × SessionState
unfolding insert_slot
register run s = (
  s.next_id,
  record { runs = insert_slot s.next_id run s.runs; next_id = (s.next_id + 1) % 2 ^ 64 },
)

unfoldable pub deregister : (slot : ℕ) → SessionState → SessionState
unfolding remove_slot
deregister slot s = record s { runs = remove_slot slot s.runs }

unfoldable pub live_in : RunStates → List (ℕ × ℕ) → List ℕ
live_in states [] = []
live_in states ((slot, run) ∷ m) = elim (states run) [
  | none ↦ live_in states m
  | some channel ↦ channel ∷ live_in states m
]

unfoldable pub live_routers : RunStates → SessionState → List ℕ
unfolding live_in
live_routers states s = live_in states s.runs

-- An error is a constructor with the values that its details show.
pub data SendError : Type 0 where
  bad_arguments : String → SendError
  empty_text : SendError
  none_live : SendError
  closed_during_send : SendError
  several_live : (count : ℕ) → SendError

pub data McpErrorCode : Type 0 where
  invalid_params conversation_inactive : McpErrorCode

unfoldable pub error_code : SendError → McpErrorCode
error_code (bad_arguments e) = invalid_params
error_code empty_text = invalid_params
error_code none_live = conversation_inactive
error_code closed_during_send = conversation_inactive
error_code (several_live n) = conversation_inactive

-- Sending into a channel, `err` where its receiver is gone.
pub record Mpsc : Type 1 where
  pub State : Type 0
  pub send : (channel : ℕ) (text : String) → State → Result String State

module _ (mpsc : Mpsc) where
  abbrev pub sent_or : Result String mpsc.State → mpsc.State → Result SendError mpsc.State
  sent_or (ok w) w0 = ok w
  sent_or (err e) w0 = err closed_during_send

  unfoldable pub send_to : List ℕ → String → mpsc.State → Result SendError mpsc.State
  send_to [] t w = err none_live
  send_to (channel ∷ []) t w = sent_or (mpsc.send channel t w) w
  send_to (channel ∷ other ∷ more) t w = err (several_live (length (channel ∷ other ∷ more)))

  unfoldable pub send_text :
      String → SessionState → RunStates → mpsc.State → Result SendError mpsc.State
  unfolding trim is_empty live_routers send_to
  send_text t s states w =
      if is_empty (trim t) then err empty_text else send_to (live_routers states s) t w

  abbrev pub parsed : Result String String → Result SendError String
  parsed (ok t) = ok t
  parsed (err e) = err (bad_arguments e)

  -- `SendMessage::call`, from what serde_json makes of the arguments to the channels, where it delivers.
  unfoldable pub send_message :
      Result String String → SessionState → RunStates → mpsc.State → Result SendError mpsc.State
  unfolding send_text
  send_message arguments s states w = parsed arguments >>= λ t. send_text t s states w
