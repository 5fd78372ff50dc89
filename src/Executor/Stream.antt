-- ===== src/Executor/Stream.antt =====
-- src/executor/stream_json.rs: the parser of one line of the agent's output. serde_json is a parameter,
-- with its values as data. A number stands as its text, which nothing reads.
pub mod Line
pub mod Meaning
pub mod Events
mod Tests
use kuromaku.Prelude.{
  String, Bool, true, false, Option, none, some, List, [], ◌∷◌, str_eq, if◌then◌else◌,
}
use kuromaku.Prelude.Text.{is_empty, trim}
use kuromaku.Messaging.Router.{Fragment, text, tool_use, result}

mutual
  pub data Json : Type 0 where
    null : Json
    bool : Bool → Json
    number : String → Json
    string : String → Json
    array : Items → Json
    object : Fields → Json

  pub data Items : Type 0 where
    nil : Items
    item : Json → Items → Items

  pub data Fields : Type 0 where
    end : Fields
    field : String → Json → Fields → Fields

unfoldable pub find_field : String → Fields → Option Json
find_field k end = none
find_field k (field j v rest) = if str_eq k j then some v else find_field k rest

-- `Value::get` with a text.
unfoldable pub get : String → Json → Option Json
unfolding find_field
get k (object fields) = find_field k fields
get k null = none
get k (bool b) = none
get k (number n) = none
get k (string s) = none
get k (array xs) = none

abbrev pub as_str : Json → Option String
as_str (string s) = some s
as_str null = none
as_str (bool b) = none
as_str (number n) = none
as_str (array xs) = none
as_str (object fields) = none

abbrev pub text_of : Option Json → Option String
text_of none = none
text_of (some v) = as_str v

-- `.get(key).and_then(|v| v.as_str())`.
unfoldable pub get_str : String → Json → Option String
unfolding get
get_str k v = text_of (get k v)

abbrev pub or_text : String → Option String → String
or_text d none = d
or_text d (some s) = s

-- `value.get("type").and_then(|v| v.as_str()).unwrap_or("")`.
unfoldable pub type_of : Json → String
unfolding get_str
type_of v = or_text "" (get_str "type" v)

abbrev pub unless_empty : (String → Fragment) → Option String → List Fragment
unless_empty f none = []
unless_empty f (some s) = if is_empty s then [] else f s ∷ []

unfoldable pub parse_delta : Json → List Fragment
unfolding type_of get_str is_empty
parse_delta delta =
    if str_eq (type_of delta) "text_delta" then unless_empty text (get_str "text" delta) else []

unfoldable pub parse_block : Json → List Fragment
unfolding type_of get_str
parse_block block =
    if str_eq (type_of block) "tool_use"
    then tool_use (or_text "unknown" (get_str "name" block)) ∷ []
    else []

abbrev pub for_field : (Json → List Fragment) → Option Json → List Fragment
for_field f none = []
for_field f (some v) = f v

unfoldable pub parse_event : Json → List Fragment
unfolding type_of get parse_delta parse_block
parse_event event =
    if str_eq (type_of event) "content_block_delta"
    then for_field parse_delta (get "delta" event)
    else if str_eq (type_of event) "content_block_start"
    then for_field parse_block (get "content_block" event)
    else []

unfoldable pub parse_stream_event : Json → List Fragment
unfolding get parse_event
parse_stream_event value = for_field parse_event (get "event" value)

unfoldable pub parse_result : Json → List Fragment
unfolding get_str is_empty
parse_result value = unless_empty result (get_str "result" value)

unfoldable pub parse_value : Json → List Fragment
unfolding type_of parse_stream_event parse_result
parse_value value =
    if str_eq (type_of value) "assistant"
    then []
    else if str_eq (type_of value) "stream_event"
    then parse_stream_event value
    else if str_eq (type_of value) "result"
    then parse_result value
    else []

module _ (from_str : String → Option Json) where
  unfoldable pub parse_line : String → List Fragment
  unfolding trim is_empty parse_value
  parse_line line =
      if is_empty (trim line) then [] else for_field parse_value (from_str (trim line))
