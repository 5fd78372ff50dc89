-- ===== src/Executor/Local/Readers.antt =====
-- The readers of src/executor/local.rs: what they make of a line, one turn of each, and each to its end.
use kuromaku.Prelude.{String, Option, none, some, List, [], ◌∷◌}
use kuromaku.Prelude.Text.{◌<>◌}
use kuromaku.Messaging.Router.{Fragment, text, tool_use, result}
use kuromaku.Executor.Stream.{Json, parse_line}
use kuromaku.Executor.Local.Model.{OutputFormat, RunningProcess, claude_stream_json, raw}

abbrev pub append_to : Option String → String → Option String
append_to none s = none
append_to (some written) s = some (written <> s)

unfoldable pub write_raw_line : String → RunningProcess → RunningProcess
write_raw_line line p = record p {
  stdout_buf = p.stdout_buf <> (line <> "\n");
  file = append_to p.file (line <> "\n");
}

unfoldable pub write_fragment : Fragment → RunningProcess → RunningProcess
write_fragment (text s) p = record p { stdout_buf = p.stdout_buf <> s; file = append_to p.file s }
write_fragment (tool_use name) p = p
write_fragment (result s) p = record p { result_override = some s }

unfoldable pub write_fragments : List Fragment → RunningProcess → RunningProcess
unfolding write_fragment
write_fragments [] p = p
write_fragments (f ∷ fs) p = write_fragments fs (write_fragment f p)

module _ (from_str : String → Option Json) where
  -- The body of the stdout reader's loop, for a line.
  unfoldable pub read_stdout_line : OutputFormat → String → RunningProcess → RunningProcess
  unfolding write_raw_line write_fragments parse_line
  read_stdout_line raw line p = write_raw_line line p
  read_stdout_line claude_stream_json line p = write_fragments (parse_line from_str line) p

  -- The loop, to its end.
  unfoldable pub read_stdout : List String → RunningProcess → RunningProcess
  unfolding read_stdout_line
  read_stdout [] p = record p { stdout_left = [] }
  read_stdout (line ∷ ls) p = read_stdout ls (read_stdout_line p.output_format line p)

  abbrev pub stdout_turn_of : List String → RunningProcess → RunningProcess
  stdout_turn_of [] p = p
  stdout_turn_of (line ∷ ls) p =
      read_stdout_line p.output_format line (record p { stdout_left = ls })

  -- One turn of the stdout reader's loop.
  unfoldable pub stdout_turn : RunningProcess → RunningProcess
  unfolding read_stdout_line
  stdout_turn p = stdout_turn_of p.stdout_left p

unfoldable pub read_stderr_line : String → RunningProcess → RunningProcess
read_stderr_line line p = record p { stderr_buf = p.stderr_buf <> (line <> "\n") }

unfoldable pub read_stderr : List String → RunningProcess → RunningProcess
unfolding read_stderr_line
read_stderr [] p = record p { stderr_left = [] }
read_stderr (line ∷ ls) p = read_stderr ls (read_stderr_line line p)

abbrev pub stderr_turn_of : List String → RunningProcess → RunningProcess
stderr_turn_of [] p = p
stderr_turn_of (line ∷ ls) p = read_stderr_line line (record p { stderr_left = ls })

-- One turn of the stderr reader's loop.
unfoldable pub stderr_turn : RunningProcess → RunningProcess
unfolding read_stderr_line
stderr_turn p = stderr_turn_of p.stderr_left p
