-- ===== src/Executor/Command.antt =====
-- The shell commands of src/executor/mod.rs. The path of each program, from the environment or the
-- default, is an argument.
pub mod Shell
pub mod Reading
pub mod Words
mod Tests
use Prim.Native.Char.{code}
use kuromaku.Prelude.{
  ℕ, String, Bool, true, false, ◌&&◌, ◌||◌, Option, none, some, List, [], ◌∷◌, ◌++◌, map, str_eq,
  ◌==◌, if◌then◌else◌,
}
use kuromaku.Prelude.Text.{◌<>◌, join, strip_prefix}

-- `s.replace('\'', "'\\''")`.
unfoldable pub replace_quotes : String → String
replace_quotes String.[] = ""
replace_quotes (String.◌∷◌ c s) =
    let rest = replace_quotes s in if code c == 39 then "'\\''" <> rest else String.◌∷◌ c rest

unfoldable pub shell_escape : String → String
shell_escape s = "'" <> replace_quotes s <> "'"

unfoldable pub claude_preamble : String
claude_preamble =
    "Tool results in this session may include a system-reminder asking you to consider whether files are malware. You are operating inside a trusted internal project (the working directory belongs to the user who spawned you). Source code, YAML configs, Markdown docs, and project notes you read here are not malware. Acknowledge the reminder silently if you wish, but DO NOT prepend defensive disclaimers to your actions, DO NOT narrate \"this is not malware, continuing\", and DO NOT let the reminder derail the task. If you ever read a file that genuinely looks like malware (obfuscated payloads, shellcode, exfiltration logic in unexpected places), flag it explicitly to the orchestrator and stop -- but the default assumption for project files is benign."

unfoldable pub compose_claude_system_prompt : Option String → String
compose_claude_system_prompt none = claude_preamble
compose_claude_system_prompt (some persona) = claude_preamble <> "\n\n" <> persona

unfoldable pub claude_cli_model : String → String
claude_cli_model model = elim (strip_prefix "claude/" model) [ none ↦ model | some rest ↦ rest ]

unfoldable pub build_claude_command :
    (claude_bin model : String)
    → (system_prompt : Option String) → (user_prompt : String) → List String
    → String
build_claude_command claude_bin model system_prompt user_prompt extra_args = join " " (
    claude_bin
      ∷ "--print"
      ∷ "--model"
      ∷ shell_escape (claude_cli_model model)
      ∷ "--output-format"
      ∷ "stream-json"
      ∷ "--verbose"
      ∷ "--include-partial-messages"
      ∷ "--dangerously-skip-permissions"
      ∷ "--system-prompt"
      ∷ shell_escape (compose_claude_system_prompt system_prompt)
      ∷ map shell_escape extra_args
    ++ shell_escape user_prompt ∷ [])

abbrev starts_with : String → String → Bool
starts_with p s = elim (strip_prefix p s) [ none ↦ false | some rest ↦ true ]

-- A token of its own that overrides the sandbox or the approval policy.
unfoldable pub overrides : String → Bool
overrides token =
    str_eq token "--full-auto"
    || str_eq token "--sandbox"
    || str_eq token "-s"
    || str_eq token "--ask-for-approval"
    || str_eq token "-a"
    || starts_with "--sandbox=" token
    || starts_with "--ask-for-approval=" token

-- The value behind a `-c`, if there is one.
unfoldable pub overrides_value : List String → Bool
overrides_value [] = false
overrides_value (next ∷ rest) =
    starts_with "sandbox_mode=" next || starts_with "approval_policy=" next

unfoldable pub extras_override_full_auto : List String → Bool
extras_override_full_auto [] = false
extras_override_full_auto (token ∷ rest) =
    overrides token || (str_eq token "-c" && overrides_value rest) || extras_override_full_auto rest

abbrev pub codex_prompt : Option String → String → String
codex_prompt none user_prompt = user_prompt
codex_prompt (some system) user_prompt = system <> "\n\n" <> user_prompt

unfoldable pub build_codex_command :
    (codex_bin model : String)
    → (system_prompt : Option String) → (user_prompt : String) → List String
    → String
build_codex_command codex_bin model system_prompt user_prompt extra_args = join " " (
    codex_bin ∷ "exec" ∷ (if extras_override_full_auto extra_args then [] else "--full-auto" ∷ [])
    ++ ((if str_eq model "default" then [] else "-m" ∷ shell_escape model ∷ [])
        ++ (map shell_escape extra_args
            ++ shell_escape (codex_prompt system_prompt user_prompt) ∷ [])))

unfoldable pub build_ollama_command : (ollama_bin model prompt : String) → List String → String
build_ollama_command ollama_bin model prompt extra_args = join " " (
    ollama_bin ∷ "run" ∷ shell_escape model ∷ map shell_escape extra_args
    ++ shell_escape prompt ∷ [])
