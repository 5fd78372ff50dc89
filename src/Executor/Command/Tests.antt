-- ===== src/Executor/Command/Tests.antt =====
-- Commands with quotes and substitutions in their prompts.
use kuromaku.Prelude.{◌≡◌, refl, true, false, none, some, [], ◌∷◌, str_eq}
use kuromaku.Prelude.Text.{strip_prefix}
use kuromaku.Executor.Command.{
  replace_quotes, shell_escape, compose_claude_system_prompt, claude_cli_model,
  build_claude_command, overrides, overrides_value, extras_override_full_auto, build_codex_command,
  build_ollama_command,
}
use kuromaku.Executor.Command.Shell.{words}
use kuromaku.Executor.Command.Words.{claude-words, codex-words, ollama-words}

escaped_quote : shell_escape "it's" ≡ "'it'\\''s'"
unfolding shell_escape replace_quotes
escaped_quote = refl

tier_stripped : claude_cli_model "claude/haiku" ≡ "haiku"
unfolding claude_cli_model strip_prefix
tier_stripped = refl

sandbox_found : extras_override_full_auto ("-c" ∷ "sandbox_mode=read-only" ∷ []) ≡ true
unfolding extras_override_full_auto overrides overrides_value strip_prefix str_eq
sandbox_found = refl

effort_ignored : extras_override_full_auto ("-c" ∷ "model_reasoning_effort=high" ∷ []) ≡ false
unfolding extras_override_full_auto overrides overrides_value strip_prefix str_eq
effort_ignored = refl

ollama-words_example :
    words (build_ollama_command "/usr/bin/ollama" "llama3" "it's $(rm -r .)" ("--keepalive" ∷ []))
    ≡ some ("/usr/bin/ollama" ∷ "run" ∷ "llama3" ∷ "--keepalive" ∷ "it's $(rm -r .)" ∷ [])
ollama-words_example =
    ollama-words "/usr/bin/ollama" refl "llama3" "it's $(rm -r .)" ("--keepalive" ∷ [])

claude-words_example :
    words (build_claude_command "claude" "opus" none "don't; ls" [])
    ≡ some (
        "claude"
        ∷ "--print"
        ∷ "--model"
        ∷ claude_cli_model "opus"
        ∷ "--output-format"
        ∷ "stream-json"
        ∷ "--verbose"
        ∷ "--include-partial-messages"
        ∷ "--dangerously-skip-permissions"
        ∷ "--system-prompt"
        ∷ compose_claude_system_prompt none
        ∷ "don't; ls"
        ∷ [])
claude-words_example = claude-words "claude" refl "opus" "don't; ls" [] none

codex-words_example :
    words (build_codex_command "codex" "default" none "write docs" ("-s" ∷ "workspace-write" ∷ []))
    ≡ some ("codex" ∷ "exec" ∷ "-s" ∷ "workspace-write" ∷ "write docs" ∷ [])
unfolding extras_override_full_auto overrides overrides_value strip_prefix str_eq
codex-words_example =
    codex-words "codex" refl "default" "write docs" none ("-s" ∷ "workspace-write" ∷ [])
