-- ===== src/Runner/Decision/Tests.antt =====
-- Replies with a decoder that knows two blocks.
use kuromaku.Prelude.{ℕ, ◌≡◌, refl, some, [], ◌∷◌, ◌++◌, ◌==◌, if◌then◌else◌}
use kuromaku.Prelude.Result.{Result, ok, err}
use kuromaku.Runner.Decision.{
  Bytes, open_brace, close_brace, quote, AgentDecision, DecisionParseError, invalid_json,
  top_level_json_objects, scan, scan_byte, scan_inside, slice, take, drop, parse_agent_decision,
}
use kuromaku.Runner.Decision.Scanner.{outside, objects, top_level-objects}
use kuromaku.Runner.Decision.Grammar.{Chars, Body, Unclosed, Prose, braces, top_level-Prose}
use kuromaku.Runner.Decision.Choice.{parse-last, parse_error-first, parse_reply, parse_total}

abbrev done : AgentDecision
done = record { transition = "done"; reason = "Reviewed." }

-- A block that begins with `d` is a decision, and all others are errors that name their first byte.
abbrev decode : Bytes → Result ℕ AgentDecision
decode (b ∷ c ∷ rest) = if c == b'd' then ok done else err c
decode (b ∷ []) = err b
decode [] = err 0

-- `a{x}`.
abbrev prose : Bytes
prose = b'a' ∷ braces (b'x' ∷ [])

prose-Prose : Prose prose (braces (b'x' ∷ []) ∷ [])
prose-Prose = Prose.plain refl (Prose.block (Body.plain refl refl refl Body.stop) Prose.stop)

-- `"}"`, in quotes.
literal-Body : Body (quote ∷ (close_brace ∷ []) ++ (quote ∷ []))
literal-Body = Body.literal (Chars.plain refl refl Chars.stop) Body.stop

top_level-Prose_example :
    (top_level_json_objects prose ≡ braces (b'x' ∷ []) ∷ [])
    × (top_level_json_objects (prose ++ (open_brace ∷ quote ∷ close_brace ∷ quote ∷ []))
        ≡ braces (b'x' ∷ []) ∷ [])
top_level-Prose_example = top_level-Prose prose-Prose (Unclosed.whole literal-Body)

top_level-objects_example : top_level_json_objects prose ≡ objects outside [] prose
top_level-objects_example = top_level-objects prose

parse_reply_example :
    parse_agent_decision decode (prose ++ (open_brace ∷ (b'd' ∷ []) ++ (close_brace ∷ b'.' ∷ [])))
    ≡ some (ok done)
parse_reply_example =
    parse_reply decode prose (b'd' ∷ []) (b'.' ∷ []) (braces (b'x' ∷ []) ∷ []) done prose-Prose
      (Body.plain refl refl refl Body.stop) (refl, tt) refl

two_blocks :
    top_level_json_objects (braces (b'd' ∷ []) ++ braces (b'x' ∷ []))
    ≡ braces (b'd' ∷ []) ∷ braces (b'x' ∷ []) ∷ []
unfolding top_level_json_objects scan scan_byte scan_inside slice take drop
two_blocks = refl

parse-last_example :
    parse_agent_decision decode (braces (b'd' ∷ []) ++ braces (b'x' ∷ [])) ≡ some (ok done)
parse-last_example =
    parse-last decode (braces (b'd' ∷ []) ++ braces (b'x' ∷ [])) [] (braces (b'd' ∷ []))
      (braces (b'x' ∷ []) ∷ []) done two_blocks ((b'x', refl), tt) refl

two_failures :
    top_level_json_objects (braces (b'x' ∷ []) ++ braces (b'y' ∷ []))
    ≡ braces (b'x' ∷ []) ∷ braces (b'y' ∷ []) ∷ []
unfolding top_level_json_objects scan scan_byte scan_inside slice take drop
two_failures = refl

parse_error-first_example :
    parse_agent_decision decode (braces (b'x' ∷ []) ++ braces (b'y' ∷ []))
    ≡ some (err (invalid_json b'x'))
parse_error-first_example =
    parse_error-first decode (braces (b'x' ∷ []) ++ braces (b'y' ∷ [])) (braces (b'x' ∷ []))
      (braces (b'y' ∷ []) ∷ []) b'x' two_failures ((b'y', refl), tt) refl

parse_total_example :
    (r : Result (DecisionParseError ℕ) AgentDecision) × (parse_agent_decision decode prose ≡ some r)
parse_total_example = parse_total decode prose
