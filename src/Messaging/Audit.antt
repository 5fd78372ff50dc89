-- ===== src/Messaging/Audit.antt =====
-- src/messaging/audit.rs: the audit log of a conversation. serde_json, ULIDs, the clock and the file
-- system are parameters. The writer has the file as the text that stands in it.
pub mod Lines
pub mod Written
pub mod ReadBack
mod Tests
use kuromaku.Prelude.{
  ℕ, zero, suc, ◌+◌, ◌%◌, ◌^◌, String, Bool, true, false, ◌&&◌, Option, none, some, List, [], ◌∷◌,
  ◌==◌, if◌then◌else◌,
}
use Prim.Native.Char.{Char, code}
use kuromaku.Prelude.Text.{◌<>◌, is_blank}
use kuromaku.Prelude.Number.{show}
use kuromaku.Prelude.Result.{Result, ok, err}
use kuromaku.Messaging.Router.{
  Source, agent, human, router, display_source, display_reason, LogEntry, LogKind, inbound,
  outbound, send_failed, termination, partial, tool_use, final,
}

pub data MessageKind : Type 0 where
  message advisory escalation system : MessageKind

abbrev pub system_from : String
system_from = "system"

pub record Message : Type 0 where
  pub id : String
  pub ts : String
  pub from : String
  pub to : Option String
  pub kind : MessageKind
  pub content : String
  pub turn : ℕ
  pub refs : List String

-- `serde_json::to_string` and `from_str`, each with the error as it is shown.
pub record Codec : Type 0 where
  pub encode : Message → Result String String
  pub decode : String → Result String Message

-- A write may fail when a part of the line is in the file.
pub record Torn : Type 0 where
  pub kept : String
  pub error : String

pub record World : Type 1 where
  pub State : Type 0
  pub ulid : State → String × State
  pub now : State → String × State
  pub write : String → State → Option Torn × State
  pub flush : State → Option String × State

unfoldable pub message_log_filename : String → String
message_log_filename step_id = step_id <> ".ndjson"

pub record MessageLogWriter : Type 0 where
  pub file : String
  pub turn : ℕ
  pub count : ℕ

-- `MessageLogWriter::create` where the file opens: it is truncated.
abbrev pub create : MessageLogWriter
create = record { file = ""; turn = 1; count = 0 }

-- `u32 += 1`, as it wraps.
abbrev pub increment : ℕ → ℕ
increment n = (n + 1) % 2 ^ 32

module _ (codec : Codec) (w : World) where
  abbrev pub Appended : Type 0
  Appended = Result String (Unit {0}) × MessageLogWriter × w.State

  -- The line is in the file; a failed flush leaves the count as it was.
  unfoldable pub flush_line : MessageLogWriter → Option String × w.State → Appended
  flush_line wr (some e, s) = (err e, wr, s)
  flush_line wr (none, s) = (ok tt, record wr { count = increment wr.count }, s)

  unfoldable pub write_line : MessageLogWriter → (line : String) → Option Torn × w.State → Appended
  unfolding flush_line
  write_line wr line (some t, s) = (err t.error, record wr { file = wr.file <> t.kept }, s)
  write_line wr line (none, s) =
      flush_line (record wr { file = wr.file <> line <> "\n" }) (w.flush s)

  unfoldable pub write_message : MessageLogWriter → Message → w.State → Appended
  unfolding write_line
  write_message wr m s = elim (codec.encode m) [
    | err e ↦ (err e, wr, s)
    | ok line ↦ write_line wr line (w.write (line <> "\n") s)
  ]

  unfoldable pub append :
      (from : String)
      → (to : Option String) → MessageKind
      → (content : String) → MessageLogWriter
      → w.State
      → Appended
  unfolding write_message
  append from to kind content wr s =
      let (id, s1) = w.ulid s in
      let (ts, s2) = w.now s1 in
      write_message wr
        (record {
          id = id;
          ts = ts;
          from = from;
          to = to;
          kind = kind;
          content = content;
          turn = wr.turn;
          refs = [];
        })
        s2

  abbrev pub Recorded : Type 0
  Recorded = Result String Bool × MessageLogWriter × w.State

  -- `append(…)?; Ok(true)`.
  abbrev pub written : Appended → Recorded
  written (ok u, wr, s) = (ok true, wr, s)
  written (err e, wr, s) = (err e, wr, s)

  -- A message of the person opens the next turn.
  abbrev pub turned : Source → MessageLogWriter → MessageLogWriter
  turned (agent id) wr = wr
  turned human wr = record wr { turn = increment wr.turn }
  turned router wr = wr

  unfoldable pub record_kind : Source → LogKind → MessageLogWriter → w.State → Recorded
  unfolding append display_source display_reason
  record_kind from (inbound content partial) wr s = (ok false, wr, s)
  record_kind from (inbound content final) wr s =
      written (append (display_source from) none message content (turned from wr) s)
  record_kind from (inbound content (tool_use name)) wr s =
      written (append (display_source from) none advisory ("[tool: " <> name <> "]") wr s)
  record_kind from (outbound to content) wr s = (ok false, wr, s)
  record_kind from (send_failed to error) wr s =
      written
        (append system_from (some to) system ("failed to deliver to " <> to <> ": " <> error) wr s)
  record_kind from (termination reason) wr s =
      written (append system_from none system ("terminated: " <> display_reason reason) wr s)

  unfoldable pub record_entry : LogEntry → MessageLogWriter → w.State → Recorded
  unfolding record_kind
  record_entry e wr s = record_kind e.from e.kind wr s

  -- The logger of a conversation: a failure is a warning, and the conversation goes on.
  unfoldable pub record_all :
      List LogEntry → MessageLogWriter → w.State → MessageLogWriter × w.State
  unfolding record_entry
  record_all [] wr s = (wr, s)
  record_all (e ∷ es) wr s = let (result, wr', s') = record_entry e wr s in record_all es wr' s'

abbrev starts_newline : String → Bool
starts_newline String.[] = false
starts_newline (String.◌∷◌ c s) = code c == 10

abbrev push_front : Char → List String → List String
push_front c [] = String.◌∷◌ c String.[] ∷ []
push_front c (l ∷ ls) = String.◌∷◌ c l ∷ ls

-- `BufRead::lines`: a line ends at a line feed, which takes a carriage return before it along.
unfoldable pub lines : String → List String
lines String.[] = []
lines (String.◌∷◌ c s) =
    let rest = lines s in
    if code c == 10
    then "" ∷ rest
    else if code c == 13 && starts_newline s
    then rest
    else push_front c rest

module _ (codec : Codec) (path : String) where
  unfoldable pub read_lines : ℕ → List String → Result String (List Message)
  unfolding is_blank show
  read_lines i [] = ok []
  read_lines i (l ∷ ls) =
      let rest = read_lines (i + 1) ls in
      if is_blank l then rest else elim (codec.decode l) [
        | err e ↦ err (path <> ":" <> show (i + 1) <> ": " <> e)
        | ok m ↦ elim rest [ err e ↦ err e | ok ms ↦ ok (m ∷ ms) ]
      ]

  -- The file, or the error of opening it.
  unfoldable pub read_message_log : Result String String → Result String (List Message)
  unfolding read_lines lines
  read_message_log (err e) = err e
  read_message_log (ok text) = read_lines 0 (lines text)
