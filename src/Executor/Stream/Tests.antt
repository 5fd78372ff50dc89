-- ===== src/Executor/Stream/Tests.antt =====
-- Tests of the parser of src/executor/stream_json.rs, on lines with one event each.
use kuromaku.Prelude.{String, ◌≡◌, ◌↔◌, refl, Option, none, some, [], ◌∷◌, str_eq, if◌then◌else◌}
use kuromaku.Messaging.Router.{Fragment, text, tool_use}
use kuromaku.Executor.Stream.{Json, string, object, field, end, parse_line, parse_value}
use kuromaku.Executor.Stream.Line.{LineMeans, AtMostOne, parse_line-Means}

abbrev spoken : Json
spoken = object (
    field "type" (string "stream_event") (
      field "event"
        (object (
          field "type" (string "content_block_delta") (
            field "delta"
              (object (field "type" (string "text_delta") (field "text" (string "hello ") end)))
              end)))
        end))

abbrev unnamed_tool : Json
unnamed_tool = object (
    field "type" (string "stream_event") (
      field "event"
        (object (
          field "type" (string "content_block_start")
            (field "content_block" (object (field "type" (string "tool_use") end)) end)))
        end))

abbrev decoder : String → Option Json
decoder s = if str_eq s "{spoken}" then some spoken else none

spoken_line : parse_line decoder "  {spoken} " ≡ text "hello " ∷ []
unfolding parse_line str_eq
spoken_line = refl

unnamed_tool_value : parse_value unnamed_tool ≡ tool_use "unknown" ∷ []
unfolding parse_value str_eq
unnamed_tool_value = refl

parse_line-Means_example :
    AtMostOne (parse_line decoder "  {spoken} ")
    × ((f : Fragment)
        → (parse_line decoder "  {spoken} " ≡ f ∷ []) ↔ LineMeans decoder "  {spoken} " f)
parse_line-Means_example = parse_line-Means decoder "  {spoken} "
