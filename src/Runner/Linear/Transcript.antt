-- ===== src/Runner/Linear/Transcript.antt =====
-- The transcript of a conversation and the count of an agent's turns (src/runner/mod.rs).
use kuromaku.Prelude.{ℕ, ◌+◌, String, Bool, true, false, List, [], ◌∷◌, str_eq, if◌then◌else◌}
use kuromaku.Prelude.Text.{◌<>◌, join, trim_end}
use kuromaku.Messaging.Router.{
  Source, agent, human, router, display_source, TerminationReason, display_reason, LogEntry,
  LogKind, inbound, outbound, send_failed, termination, partial, tool_use, final,
}

unfoldable pub render_entry : Source → LogKind → String
unfolding display_source trim_end
render_entry from (inbound content final) =
    "## " <> display_source from <> "\n\n" <> trim_end content <> "\n\n"
render_entry from (inbound content (tool_use name)) =
    "_" <> display_source from <> " used tool: " <> name <> "_\n\n"
render_entry from (inbound content partial) = ""
render_entry from (outbound to content) = ""
render_entry from (send_failed to error) =
    "```\nwarning: failed to deliver to " <> to <> ": " <> error <> "\n```\n\n"
render_entry from (termination reason) = ""

unfoldable pub render_entries : List LogEntry → String
unfolding render_entry
render_entries [] = ""
render_entries (e ∷ es) = render_entry e.from e.kind <> render_entries es

unfoldable pub render_transcript : List LogEntry → TerminationReason → List String → String
unfolding render_entries join display_reason
render_transcript entries reason participants =
    "# Conversation transcript\n\n"
    <> ("Participants: " <> join ", " participants <> "\n\n")
    <> render_entries entries
    <> ("---\nTermination: " <> display_reason reason <> "\n")

abbrev pub is_from : String → Source → Bool
is_from agent_id (agent id) = str_eq id agent_id
is_from agent_id human = false
is_from agent_id router = false

abbrev pub is_final : LogKind → Bool
is_final (inbound content final) = true
is_final (inbound content partial) = false
is_final (inbound content (tool_use name)) = false
is_final (outbound to content) = false
is_final (send_failed to error) = false
is_final (termination reason) = false

unfoldable pub count_agent_turns : List LogEntry → String → ℕ
count_agent_turns [] agent_id = 0
count_agent_turns (e ∷ es) agent_id =
    (if is_from agent_id e.from then if is_final e.kind then 1 else 0 else 0)
    + count_agent_turns es agent_id
