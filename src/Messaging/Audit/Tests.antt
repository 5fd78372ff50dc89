-- ===== src/Messaging/Audit/Tests.antt =====
-- A conversation whose audit log is read back.
use kuromaku.Prelude.{
  ℕ, ◌%◌, ◌^◌, String, ◌≡◌, refl, sym, subst, inl, inr, none, some, List, [], ◌∷◌, map, Member,
  length, str_eq, if◌then◌else◌,
}
use kuromaku.Prelude.Result.{Result, ok, err}
use kuromaku.Prelude.Text.{is_blank}
use kuromaku.Messaging.Router.{
  agent, human, router, LogEntry, inbound, outbound, send_failed, termination, partial, tool_use,
  final, convergence,
}
use kuromaku.Messaging.Audit.{
  message, advisory, system, Message, Codec, World, create, record_all, read_message_log,
}
use kuromaku.Messaging.Audit.Lines.{is_plain}
use kuromaku.Messaging.Audit.Written.{Body, body, transcript, IsStamped, Survives, IsFaultless}
use kuromaku.Messaging.Audit.ReadBack.{record-read}

abbrev talk : List LogEntry
talk =
    record { from = agent "noah"; kind = inbound "Hm" partial }
    ∷ record { from = agent "noah"; kind = inbound "[tool: bash]" (tool_use "bash") }
    ∷ record { from = human; kind = inbound "Go on." final }
    ∷ record { from = router; kind = send_failed "levi" "closed" }
    ∷ record { from = router; kind = outbound "noah" "Go on." }
    ∷ record { from = agent "noah"; kind = inbound "DONE" final }
    ∷ record { from = router; kind = termination convergence }
    ∷ []

abbrev body_of : String → String → ℕ → Body
body_of from content turn = record {
  from = from;
  to = none;
  kind = message;
  content = content;
  turn = turn;
  refs = [];
}

abbrev told : List Body
told =
    record (body_of "noah" "[tool: bash]" 1) { kind = advisory }
    ∷ body_of "user" "Go on." 2
    ∷ record (body_of "system" "failed to deliver to levi: closed" 2) {
      to = some "levi";
      kind = system;
    }
    ∷ body_of "noah" "DONE" 2
    ∷ record (body_of "system" "terminated: convergence" 2) { kind = system }
    ∷ []

told_lem : transcript 1 talk ≡ told
unfolding transcript
told_lem = refl

abbrev calm : World
calm = record {
  State = ℕ;
  ulid = λ n. ("01", n);
  now = λ n. ("2026-04-30T10:00:00Z", n);
  write = λ text n. (none, n);
  flush = λ n. (none, n);
}

abbrev stamped : Body → Message
stamped b = record {
  id = "01";
  ts = "2026-04-30T10:00:00Z";
  from = b.from;
  to = b.to;
  kind = b.kind;
  content = b.content;
  turn = b.turn;
  refs = b.refs;
}

abbrev find_body : String → List Body → Result String Message
find_body text [] = err "unknown"
find_body text (b ∷ bs) = if str_eq b.content text then ok (stamped b) else find_body text bs

-- It writes the content alone, and knows the messages by it.
abbrev by_content : Codec
by_content = record { encode = λ m. ok m.content; decode = λ text. find_body text told }

told-Survives : (b : Body) → Member b told → Survives by_content calm (stamped b)
unfolding is_plain is_blank str_eq
told-Survives b (inl e) =
    subst (λ y. Survives by_content calm (stamped y)) (sym e)
      ("[tool: bash]", refl, refl, refl, refl)
told-Survives b (inr (inl e)) =
    subst (λ y. Survives by_content calm (stamped y)) (sym e) ("Go on.", refl, refl, refl, refl)
told-Survives b (inr (inr (inl e))) =
    subst (λ y. Survives by_content calm (stamped y)) (sym e)
      ("failed to deliver to levi: closed", refl, refl, refl, refl)
told-Survives b (inr (inr (inr (inl e)))) =
    subst (λ y. Survives by_content calm (stamped y)) (sym e) ("DONE", refl, refl, refl, refl)
told-Survives b (inr (inr (inr (inr (inl e))))) =
    subst (λ y. Survives by_content calm (stamped y)) (sym e)
      ("terminated: convergence", refl, refl, refl, refl)
told-Survives b (inr (inr (inr (inr (inr bad))))) = absurd bad

talk-Survives :
    (m : Message)
    → IsStamped by_content calm m
    → Member (body m) (transcript 1 talk)
    → Survives by_content calm m
talk-Survives m st inside =
    let same : stamped (body m) ≡ m = λ i. record {
      id = sym st.id i;
      ts = sym st.ts i;
      from = m.from;
      to = m.to;
      kind = m.kind;
      content = m.content;
      turn = m.turn;
      refs = m.refs;
    } in
    subst (Survives by_content calm) same
      (told-Survives (body m) (subst (Member (body m)) told_lem inside))

calm-IsFaultless : IsFaultless by_content calm
calm-IsFaultless = record { writes = λ text s. refl; flushes = λ s. refl }

-- A failed flush leaves the line in the file and the count as it was.
abbrev stuck : World
stuck = record calm { flush = λ n. (some "full", n) }

stuck_flush : (record_all by_content stuck talk create 0).0.count ≡ 0
unfolding record_all
stuck_flush = refl

record-read_example :
    (messages : List Message) × (read_message_log by_content "log.ndjson"
        (ok (record_all by_content calm talk create 0).0.file)
      ≡ ok messages)
    × (map body messages ≡ transcript 1 talk)
    × ((record_all by_content calm talk create 0).0.count ≡ length messages % 2 ^ 32)
record-read_example = record-read by_content calm "log.ndjson" talk 0 calm-IsFaultless talk-Survives
