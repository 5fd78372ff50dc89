-- ===== src/Messaging/Audit/ReadBack.antt =====
-- The audit log of a conversation is read back.
use kuromaku.Prelude.{
  ℕ, ◌+◌, ◌%◌, ◌^◌, String, ◌≡◌, refl, sym, ap, ◌∙◌, Bool, true, false, Option, none, some, List,
  [], ◌∷◌, ◌++◌, map, append-nil, append_assoc as list_assoc, map-append, Member,
  Member-append_left, Member-append_right, length, length-append, arith,
}
use text.Mathlib.TextLemmas.{append_assoc, append-nil as text-nil, nil-append}
use kuromaku.Prelude.Text.{◌<>◌, is_blank}
use kuromaku.Prelude.Result.{Result, ok}
use kuromaku.Messaging.Router.{
  Source, agent, human, router, display_source, display_reason, LogEntry, LogKind, inbound,
  outbound, send_failed, termination, partial, tool_use, final,
}
use kuromaku.Messaging.Audit.{
  MessageKind, message, advisory, system, Message, Codec, World, MessageLogWriter, create,
  increment, append, written, turned, record_kind, record_entry, record_all, lines, read_lines,
  read_message_log,
}
use kuromaku.Messaging.Audit.Lines.{lines_line}
use kuromaku.Messaging.Audit.Written.{
  Body, body, line, line_of, turns_opened, transcript, IsStamped, Survives, IsFaultless, Adds,
  append-Adds,
}

module _ (codec : Codec) (path : String) where
  read_lines-line :
      (i : ℕ) (text rest : String) (m : Message) (ms : List Message)
      → is_blank text ≡ false
      → codec.decode text ≡ ok m
      → read_lines codec path (i + 1) (lines rest) ≡ ok ms
      → read_lines codec path i (text ∷ lines rest) ≡ ok (m ∷ ms)
  unfolding read_lines
  read_lines-line i text rest m ms b d h = rw (read_lines, b, d, h) refl

  -- What is added to the file between two states of the writer, and how it is read.
  pub record Extends (wr : MessageLogWriter) (bodies : List Body) (n : ℕ) (wr' : MessageLogWriter)
      : Type 0 where
    pub messages : List Message
    pub tail : String
    pub same : map body messages ≡ bodies
    pub file : wr'.file ≡ wr.file <> tail
    pub turn : wr'.turn ≡ n % 2 ^ 32
    pub count : (c : ℕ) → wr.count ≡ c % 2 ^ 32 → wr'.count ≡ (c + length messages) % 2 ^ 32
    pub reads :
        (i : ℕ) (rest : String) (ms : List Message)
        → ((j : ℕ) → read_lines codec path j (lines rest) ≡ ok ms)
        → read_lines codec path i (lines (tail <> rest)) ≡ ok (messages ++ ms)

  Extends-none : (wr : MessageLogWriter) (n : ℕ) → wr.turn ≡ n % 2 ^ 32 → Extends wr [] n wr
  Extends-none wr n turn = record {
    messages = [];
    tail = "";
    same = refl;
    file = sym (text-nil wr.file);
    turn = turn;
    count = λ c h. omega (arith, h);
    reads = λ i rest ms h. ap (λ t. read_lines codec path i (lines t)) (nil-append rest) ∙ h i;
  }

  module _ (w : World) where
    Extends-line :
        (wr wr' : MessageLogWriter) (b : Body) (n : ℕ)
        → wr.turn ≡ n % 2 ^ 32
        → Adds codec w wr b wr'
        → Extends wr (b ∷ []) n wr'
    Extends-line wr wr' b n turn a = record {
      messages = a.sent ∷ [];
      tail = a.text <> "\n";
      same = ap (λ x. x ∷ []) a.same;
      file = a.file;
      turn = a.turn ∙ turn;
      count = λ c h. counted c h;
      reads = λ i rest ms h.
          ap (λ t. read_lines codec path i (lines t)) (append_assoc a.text "\n" rest)
          ∙ ap (read_lines codec path i) (lines_line a.text rest a.plain)
          ∙ read_lines-line i a.text rest a.sent ms a.not_blank a.reads (h (i + 1));
    }
      where
        counted : (c : ℕ) → wr.count ≡ c % 2 ^ 32 → wr'.count ≡ (c + 1) % 2 ^ 32
        counted c h = omega (arith, h, a.count)

  -- The turn at the start does not matter.
  Extends-turned :
      (wr wr' : MessageLogWriter) (bodies : List Body) (k n : ℕ)
      → Extends (record wr { turn = k }) bodies n wr'
      → Extends wr bodies n wr'
  Extends-turned wr wr' bodies k n e = record {
    messages = e.messages;
    tail = e.tail;
    same = e.same;
    file = e.file;
    turn = e.turn;
    count = e.count;
    reads = e.reads;
  }

  Extends-append :
      (wr wr1 wr2 : MessageLogWriter) (xs ys : List Body) (k n : ℕ)
      → Extends wr xs k wr1
      → Extends wr1 ys n wr2
      → Extends wr (xs ++ ys) n wr2
  Extends-append wr wr1 wr2 xs ys k n a b = record {
    messages = a.messages ++ b.messages;
    tail = a.tail <> b.tail;
    same = map-append body a.messages b.messages ∙ (λ i. a.same i ++ b.same i);
    file = b.file ∙ ap (λ t. t <> b.tail) a.file ∙ append_assoc wr.file a.tail b.tail;
    turn = b.turn;
    count = λ c h.
        b.count (c + length a.messages) (a.count c h)
        ∙ ap (λ x. x % 2 ^ 32) (omega (arith, length-append a.messages b.messages));
    reads = λ i rest ms h.
        ap (λ t. read_lines codec path i (lines t)) (append_assoc a.tail b.tail rest)
        ∙ a.reads i (b.tail <> rest) (b.messages ++ ms) (λ j. b.reads j rest ms h)
        ∙ ap ok (sym (list_assoc a.messages b.messages ms));
  }

module _ (codec : Codec) (path : String) (w : World) (faultless : IsFaultless codec w) where
  abbrev AllSurvive : List Body → Type 0
  AllSurvive bodies =
      (m : Message) → IsStamped codec w m → Member (body m) bodies → Survives codec w m

  abbrev Recorded :
      MessageLogWriter
      → w.State
      → List Body
      → ℕ
      → Result String Bool × MessageLogWriter × w.State
      → Type 0
  Recorded wr s bodies n r =
      (b : Bool) × (wr' : MessageLogWriter) × (s' : w.State) × (r ≡ (ok b, wr', s'))
      × Extends codec path wr bodies n wr'

  one_line :
      (from : String) (to : Option String) (kind : MessageKind) (content : String)
      (wr : MessageLogWriter) (s : w.State) (n : ℕ)
      → wr.turn ≡ n % 2 ^ 32
      → AllSurvive (line from to kind content n)
      → Recorded wr s
          (line from to kind content n)
          n
          (written codec w (append codec w from to kind content wr s))
  one_line from to kind content wr s n turn survive =
      let (wr', s', same, adds) =
        append-Adds codec w faultless from to kind content wr s n turn survive in
      (true, wr', s', ap (written codec w) same, Extends-line codec path w wr wr' _ n turn adds)

  record_kind-Recorded :
      (from : Source) (kind : LogKind) (wr : MessageLogWriter) (s : w.State) (n : ℕ)
      → wr.turn ≡ n % 2 ^ 32
      → AllSurvive (line_of (turns_opened n from kind) from kind)
      → Recorded wr s
          (line_of (turns_opened n from kind) from kind)
          (turns_opened n from kind)
          (record_kind codec w from kind wr s)
  unfolding record_kind
  record_kind-Recorded (agent id) (inbound content final) wr s n turn v =
      one_line (display_source (agent id)) none message content wr s n turn v
  record_kind-Recorded router (inbound content final) wr s n turn v =
      one_line (display_source router) none message content wr s n turn v
  record_kind-Recorded human (inbound content final) wr s n turn v =
      let (b, wr', s', same, e) =
        one_line (display_source human) none message content (turned codec w human wr) s (n + 1)
          (omega (arith, turn)) v in
      (b, wr', s', same, Extends-turned codec path wr wr' _ (increment wr.turn) (n + 1) e)
  record_kind-Recorded from (inbound content partial) wr s n turn v =
      (false, wr, s, refl, Extends-none codec path wr n turn)
  record_kind-Recorded from (inbound content (tool_use name)) wr s n turn v =
      one_line (display_source from) none advisory ("[tool: " <> name <> "]") wr s n turn v
  record_kind-Recorded from (outbound to content) wr s n turn v =
      (false, wr, s, refl, Extends-none codec path wr n turn)
  record_kind-Recorded from (send_failed to error) wr s n turn v =
      one_line "system" (some to) system ("failed to deliver to " <> to <> ": " <> error) wr s n
        turn v
  record_kind-Recorded from (termination reason) wr s n turn v =
      one_line "system" none system ("terminated: " <> display_reason reason) wr s n turn v

  record_all-Extends :
      (entries : List LogEntry) (wr : MessageLogWriter) (s : w.State) (n : ℕ)
      → wr.turn ≡ n % 2 ^ 32
      → AllSurvive (transcript n entries)
      → (last : ℕ) × Extends codec path wr
          (transcript n entries)
          last
          (record_all codec w entries wr s).0
  unfolding record_all record_entry transcript
  record_all-Extends [] wr s n turn v = (n, Extends-none codec path wr n turn)
  record_all-Extends (e ∷ es) wr s n turn v =
      let k = turns_opened n e.from e.kind in
      let here = line_of k e.from e.kind in
      let (b, wr', s', same, one) =
        record_kind-Recorded e.from e.kind wr s n turn
          (λ m st inside. v m st (Member-append_left (body m) here (transcript k es) inside)) in
      let (last, rest) =
        record_all-Extends es wr' s' k one.turn
          (λ m st inside. v m st (Member-append_right (body m) here (transcript k es) inside)) in
      (
        last,
        rw (record_all, record_entry, same)
            (Extends-append codec path wr wr' (record_all codec w es wr' s').0 here
              (transcript k es) k last one rest),
      )

-- Where no write and no flush of the audit file fails, and serde_json puts each message of the log on
-- one line and reads it back, the file that the logger writes is read without an error. The messages
-- are, apart from their stamps, the entries that a reader cares about, in their order: results and
-- messages of the person, tools that are used, failed sends and the end, each with the number of the
-- turns that the person has turns_opened before it, from 1. The writer's count is their number. The numbers
-- are those of a u32.
pub record-read :
    (codec : Codec) (w : World) (path : String) (entries : List LogEntry) (s : w.State)
    → IsFaultless codec w
    → ((m : Message)
        → IsStamped codec w m
        → Member (body m) (transcript 1 entries)
        → Survives codec w m)
    → (messages : List Message) × (read_message_log codec path
          (ok (record_all codec w entries create s).0.file)
        ≡ ok messages)
      × (map body messages ≡ transcript 1 entries)
      × ((record_all codec w entries create s).0.count ≡ length messages % 2 ^ 32)
unfolding read_message_log read_lines lines
record-read codec w path entries s faultless survive =
    let (last, e) = record_all-Extends codec path w faultless entries create s 1 refl survive in
    (
      e.messages,
      ap (λ t. read_lines codec path 0 (lines t))
            (e.file ∙ nil-append e.tail ∙ sym (text-nil e.tail))
          ∙ e.reads 0 "" [] (λ j. refl)
          ∙ ap ok (append-nil e.messages),
      e.same,
      e.count 0 refl ∙ ap (λ x. x % 2 ^ 32) (omega arith),
    )
