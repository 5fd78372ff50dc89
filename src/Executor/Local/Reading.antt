-- ===== src/Executor/Local/Reading.antt =====
-- What the two readers of src/executor/local.rs make of a child's lines, described apart from them.
use kuromaku.Prelude.{String, ◌≡◌, refl, sym, ap, ◌∙◌, Option, none, List, [], ◌∷◌}
use package.text.Mathlib.TextLemmas.{append_assoc}
use kuromaku.Prelude.Text.{◌<>◌}
use kuromaku.Messaging.Router.{text}
use kuromaku.Executor.Stream.{Json, parse_line}
use kuromaku.Executor.Local.{drained}
use kuromaku.Executor.Local.Readers.{
  write_raw_line, read_stdout_line, read_stdout, stdout_turn_of, stdout_turn, stderr_turn_of,
  read_stderr_line, read_stderr, stderr_turn,
}
use kuromaku.Executor.Local.Model.{OutputFormat, raw, claude_stream_json, RunningProcess}
use kuromaku.Executor.Local.Told.{
  answered, fragments, heard, heard_nothing, heard_twice, last_result, last_result-append, later,
  no_stderr, no_stdout, said, texts, texts-append, told, told_nothing, told_twice, with_ends,
  write_fragments-told,
}

module _ (from_str : String → Option Json) where
  abbrev line_said : OutputFormat → String → String
  line_said raw line = line <> "\n"
  line_said claude_stream_json line = texts (parse_line from_str line)

  abbrev line_answered : OutputFormat → String → Option String
  line_answered raw line = none
  line_answered claude_stream_json line = last_result (parse_line from_str line)

  said-none : (o : OutputFormat) → said from_str o [] ≡ ""
  said-none raw = refl
  said-none claude_stream_json = refl

  answered-none : (o : OutputFormat) → answered from_str o [] ≡ none
  answered-none raw = refl
  answered-none claude_stream_json = refl

  said_line :
      (o : OutputFormat) (line : String) (ls : List String)
      → said from_str o (line ∷ ls) ≡ line_said o line <> said from_str o ls
  said_line raw line ls = sym (append_assoc line "\n" (with_ends ls))
  said_line claude_stream_json line ls =
      texts-append (parse_line from_str line) (fragments from_str ls)

  answered_line :
      (o : OutputFormat) (line : String) (ls : List String)
      → answered from_str o (line ∷ ls) ≡ later (answered from_str o ls) (line_answered o line)
  answered_line raw line ls = refl
  answered_line claude_stream_json line ls =
      last_result-append (parse_line from_str line) (fragments from_str ls)

  read_stdout_line-told :
      (o : OutputFormat) (line : String) (p : RunningProcess)
      → read_stdout_line from_str o line p ≡ told (line_said o line) (line_answered o line) p
  unfolding read_stdout_line write_raw_line
  read_stdout_line-told raw line p = refl
  read_stdout_line-told claude_stream_json line p =
      write_fragments-told (parse_line from_str line) p

  read_stdout-told :
      (ls : List String) (p : RunningProcess)
      → read_stdout from_str ls p
        ≡ record (told
            (said from_str p.output_format ls)
            (answered from_str p.output_format ls)
            p) { stdout_left = [] }
  unfolding read_stdout
  read_stdout-told [] p =
      rw (said-none p.output_format, answered-none p.output_format)
        (ap no_stdout (sym (told_nothing p)))
  read_stdout-told (line ∷ ls) p =
      let o = p.output_format in
      ap (read_stdout from_str ls) (read_stdout_line-told o line p)
      ∙ read_stdout-told ls (told (line_said o line) (line_answered o line) p)
      ∙ rw (said_line o line ls, answered_line o line ls)
          (ap no_stdout (
            told_twice (line_said o line) (said from_str o ls) (line_answered o line)
              (answered from_str o ls) p))

  -- A process whose readers have read all.
  abbrev pub whole : RunningProcess → RunningProcess
  whole p =
      let o = p.output_format in
      record (heard (with_ends p.stderr_left)
        (told (said from_str o p.stdout_left) (answered from_str o p.stdout_left) p)) {
          stdout_left = [];
          stderr_left = [];
        }

  read_stderr-heard :
      (ls : List String) (p : RunningProcess)
      → read_stderr ls p ≡ record (heard (with_ends ls) p) { stderr_left = [] }
  unfolding read_stderr read_stderr_line
  read_stderr-heard [] p = ap no_stderr (sym (heard_nothing p))
  read_stderr-heard (line ∷ ls) p =
      read_stderr-heard ls (heard (line <> "\n") p)
      ∙ ap no_stderr (
          heard_twice (line <> "\n") (with_ends ls) p
          ∙ ap (λ s. heard s p) (append_assoc line "\n" (with_ends ls)))

  pub drained-whole : (p : RunningProcess) → drained from_str p ≡ whole p
  unfolding drained
  drained-whole p = rw (read_stdout-told p.stdout_left p) (
      read_stderr-heard p.stderr_left
        (record (told (said from_str p.output_format p.stdout_left)
          (answered from_str p.output_format p.stdout_left) p) { stdout_left = [] }))

  stdout_turn_of-drained :
      (ls : List String) (p : RunningProcess)
      → p.stdout_left ≡ ls
      → drained from_str (stdout_turn_of from_str ls p) ≡ drained from_str p
  stdout_turn_of-drained [] p e = refl
  stdout_turn_of-drained (line ∷ ls) p e =
      let o = p.output_format in
      let rest = record p { stdout_left = ls } in
      ap (drained from_str) (read_stdout_line-told o line rest)
      ∙ drained-whole (told (line_said o line) (line_answered o line) rest)
      ∙ rw (e, said_line o line ls, answered_line o line ls)
          (ap (λ q. no_stdout (no_stderr (heard (with_ends p.stderr_left) q)))
            (told_twice (line_said o line) (said from_str o ls) (line_answered o line)
              (answered from_str o ls) p))
      ∙ sym (drained-whole p)

  stderr_turn_of-drained :
      (ls : List String) (p : RunningProcess)
      → p.stderr_left ≡ ls
      → drained from_str (stderr_turn_of ls p) ≡ drained from_str p
  unfolding read_stderr_line
  stderr_turn_of-drained [] p e = refl
  stderr_turn_of-drained (line ∷ ls) p e =
      let o = p.output_format in
      drained-whole (record (heard (line <> "\n") p) { stderr_left = ls })
      ∙ rw e (
          ap
            (λ q. no_stdout (
              no_stderr
                (told (said from_str o p.stdout_left) (answered from_str o p.stdout_left) q)))
            (heard_twice (line <> "\n") (with_ends ls) p
              ∙ ap (λ s. heard s p) (append_assoc line "\n" (with_ends ls))))
      ∙ sym (drained-whole p)

  -- What the readers read early is no longer there to be read at the end.
  pub stdout_turn-drained :
      (p : RunningProcess) → drained from_str (stdout_turn from_str p) ≡ drained from_str p
  unfolding stdout_turn
  stdout_turn-drained p = stdout_turn_of-drained p.stdout_left p refl

  pub stderr_turn-drained :
      (p : RunningProcess) → drained from_str (stderr_turn p) ≡ drained from_str p
  unfolding stderr_turn
  stderr_turn-drained p = stderr_turn_of-drained p.stderr_left p refl

  stdout_turn_of_child :
      (ls : List String) (p : RunningProcess) → (stdout_turn_of from_str ls p).child ≡ p.child
  stdout_turn_of_child [] p = refl
  stdout_turn_of_child (line ∷ ls) p =
      ap (λ q. q.child) (read_stdout_line-told p.output_format line (record p { stdout_left = ls }))

  pub stdout_turn_child : (p : RunningProcess) → (stdout_turn from_str p).child ≡ p.child
  unfolding stdout_turn
  stdout_turn_child p = stdout_turn_of_child p.stdout_left p

stderr_turn_of_child :
    (ls : List String) (p : RunningProcess) → (stderr_turn_of ls p).child ≡ p.child
unfolding read_stderr_line
stderr_turn_of_child [] p = refl
stderr_turn_of_child (line ∷ ls) p = refl

pub stderr_turn_child : (p : RunningProcess) → (stderr_turn p).child ≡ p.child
unfolding stderr_turn
stderr_turn_child p = stderr_turn_of_child p.stderr_left p
