-- ===== src/Messaging/Audit/Written.antt =====
-- What the audit log of a conversation holds.
use kuromaku.Prelude.{
  ℕ, ◌+◌, ◌%◌, ◌^◌, String, ◌≡◌, refl, ◌∙◌, inl, true, false, Option, none, some, List, [], ◌∷◌,
  ◌++◌, Member,
}
use kuromaku.Prelude.Text.{◌<>◌, is_blank}
use kuromaku.Prelude.Result.{ok}
use kuromaku.Messaging.Router.{
  Source, agent, human, router, display_source, display_reason, LogEntry, LogKind, inbound,
  outbound, send_failed, termination, partial, tool_use, final,
}
use kuromaku.Messaging.Audit.{
  MessageKind, message, advisory, system, Message, Codec, World, Torn, MessageLogWriter, increment,
  append, write_message, write_line, flush_line,
}
use kuromaku.Messaging.Audit.Lines.{is_plain}

-- A message without its stamps.
pub record Body : Type 0 where
  pub from : String
  pub to : Option String
  pub kind : MessageKind
  pub content : String
  pub turn : ℕ
  pub refs : List String

abbrev pub body : Message → Body
body m = record {
  from = m.from;
  to = m.to;
  kind = m.kind;
  content = m.content;
  turn = m.turn;
  refs = m.refs;
}

abbrev spoken : ℕ → Source → ℕ
spoken n (agent id) = n
spoken n human = n + 1
spoken n router = n

-- The turns that have been turns_opened when the entry stands in the log, the first one included.
abbrev pub turns_opened : ℕ → Source → LogKind → ℕ
turns_opened n from (inbound content final) = spoken n from
turns_opened n from (inbound content partial) = n
turns_opened n from (inbound content (tool_use name)) = n
turns_opened n from (outbound to content) = n
turns_opened n from (send_failed to error) = n
turns_opened n from (termination reason) = n

abbrev pub body_of : String → Option String → MessageKind → String → ℕ → Body
body_of from to kind content n = record {
  from = from;
  to = to;
  kind = kind;
  content = content;
  turn = n % 2 ^ 32;
  refs = [];
}

abbrev pub line : String → Option String → MessageKind → String → ℕ → List Body
line from to kind content n = body_of from to kind content n ∷ []

-- The table in the source's comment: which entries become messages. `n` are the turns so far.
abbrev pub line_of : ℕ → Source → LogKind → List Body
line_of n from (inbound content final) = line (display_source from) none message content n
line_of n from (inbound content partial) = []
line_of n from (inbound content (tool_use name)) =
    line (display_source from) none advisory ("[tool: " <> name <> "]") n
line_of n from (outbound to content) = []
line_of n from (send_failed to error) =
    line "system" (some to) system ("failed to deliver to " <> to <> ": " <> error) n
line_of n from (termination reason) =
    line "system" none system ("terminated: " <> display_reason reason) n

unfoldable pub transcript : ℕ → List LogEntry → List Body
unfolding display_source display_reason
transcript n [] = []
transcript n (e ∷ es) =
    line_of (turns_opened n e.from e.kind) e.from e.kind
    ++ transcript (turns_opened n e.from e.kind) es

module _ (codec : Codec) (w : World) where
  -- The message has an id and a time that the world gives.
  pub record IsStamped (m : Message) : Type 0 where
    pub before : w.State
    pub between : w.State
    pub id : m.id ≡ (w.ulid before).0
    pub ts : m.ts ≡ (w.now between).0

  -- serde_json writes the message on one line, and reads it back.
  abbrev pub Survives : Message → Type 0
  Survives m =
      (text : String) × (codec.encode m ≡ ok text)
      × (is_plain text ≡ true)
      × (is_blank text ≡ false)
      × (codec.decode text ≡ ok m)

  -- No write and no flush fails.
  pub record IsFaultless : Type 0 where
    pub writes : (text : String) (s : w.State) → (w.write text s).0 ≡ none
    pub flushes : (s : w.State) → (w.flush s).0 ≡ none

  -- What one more line makes of the writer.
  pub record Adds (wr : MessageLogWriter) (b : Body) (wr' : MessageLogWriter) : Type 0 where
    pub sent : Message
    pub text : String
    pub same : body sent ≡ b
    pub file : wr'.file ≡ wr.file <> text <> "\n"
    pub turn : wr'.turn ≡ wr.turn
    pub count : wr'.count ≡ increment wr.count
    pub plain : is_plain text ≡ true
    pub not_blank : is_blank text ≡ false
    pub reads : codec.decode text ≡ ok sent

  flush_line-none :
      (wr : MessageLogWriter) (p : Option String × w.State)
      → p.0 ≡ none
      → flush_line codec w wr p ≡ (ok tt, record wr { count = increment wr.count }, p.1)
  unfolding flush_line
  flush_line-none wr (none, s) h = refl
  flush_line-none wr (some e, s) h = absurd (cc)

  write_line-none :
      (wr : MessageLogWriter) (text : String) (p : Option Torn × w.State)
      → p.0 ≡ none
      → write_line codec w wr text p
        ≡ flush_line codec w (record wr { file = wr.file <> text <> "\n" }) (w.flush p.1)
  unfolding write_line
  write_line-none wr text (none, s) h = refl
  write_line-none wr text (some t, s) h = absurd (cc)

  pub append-Adds :
      IsFaultless
      → (from : String) (to : Option String) (kind : MessageKind) (content : String)
        (wr : MessageLogWriter) (s : w.State) (n : ℕ)
      → wr.turn ≡ n % 2 ^ 32
      → ((m : Message) → IsStamped m → Member (body m) (line from to kind content n) → Survives m)
      → (wr' : MessageLogWriter) × (s' : w.State) × (append codec w from to kind content wr s
          ≡ (ok tt, wr', s'))
        × Adds wr (body_of from to kind content n) wr'
  unfolding append write_message
  append-Adds ok_world from to kind content wr s n turn survives =
      let m : Message = record {
        id = (w.ulid s).0;
        ts = (w.now (w.ulid s).1).0;
        from = from;
        to = to;
        kind = kind;
        content = content;
        turn = wr.turn;
        refs = [];
      } in
      let same : body m ≡ body_of from to kind content n =
        λ i. record (body_of from to kind content n) { turn = turn i } in
      let stamped : IsStamped m = record {
        before = s;
        between = (w.ulid s).1;
        id = refl;
        ts = refl;
      } in
      let (text, encodes, plain, not_blank, reads) = survives m stamped (inl same) in
      let s2 = (w.now (w.ulid s).1).1 in
      let p = w.write (text <> "\n") s2 in
      let wr1 : MessageLogWriter = record wr { file = wr.file <> text <> "\n" } in
      (
        record wr1 { count = increment wr.count },
        (w.flush p.1).1,
        rw (append, write_message, encodes)
            (write_line-none wr text p (ok_world.writes (text <> "\n") s2)
              ∙ flush_line-none wr1 (w.flush p.1) (ok_world.flushes p.1)),
        record {
          sent = m;
          text = text;
          same = same;
          file = refl;
          turn = refl;
          count = refl;
          plain = plain;
          not_blank = not_blank;
          reads = reads;
        },
      )
