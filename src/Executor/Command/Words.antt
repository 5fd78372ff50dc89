-- ===== src/Executor/Command/Words.antt =====
-- The words that the shell reads from the commands.
use Prim.Native.Char.{char}
use kuromaku.Prelude.{
  String, ◌≡◌, refl, sym, ap, ◌∙◌, Bool, true, false, Option, some, List, [], ◌∷◌, ◌++◌, map,
  if◌then◌else◌, str_eq,
}
use kuromaku.Prelude.Text.{◌<>◌, join}
use text.Mathlib.TextLemmas.{append-nil}
use kuromaku.Executor.Command.{
  shell_escape, compose_claude_system_prompt, claude_cli_model, build_claude_command,
  extras_override_full_auto, codex_prompt, build_codex_command, build_ollama_command,
}
use kuromaku.Executor.Command.Shell.{between, bare, finish, split, words, is_word}
use kuromaku.Executor.Command.Reading.{Reads, Reads-escaped, Reads-plain, single-append}

-- Each part is read as its word.
abbrev AllRead : List String → List String → Type 0
AllRead [] [] = Unit
AllRead (p ∷ ps) (w ∷ ws) = Reads p w × AllRead ps ws
AllRead [] (w ∷ ws) = ⊥
AllRead (p ∷ ps) [] = ⊥

AllRead-append :
    (ps qs ws vs : List String) → AllRead ps ws → AllRead qs vs → AllRead (ps ++ qs) (ws ++ vs)
AllRead-append [] qs [] vs h k = k
AllRead-append (p ∷ ps) qs (w ∷ ws) vs h k = (h.0, AllRead-append ps qs ws vs h.1 k)
AllRead-append [] qs (w ∷ ws) vs h k = absurd h
AllRead-append (p ∷ ps) qs [] vs h k = absurd h

AllRead-escaped : (args : List String) → AllRead (map shell_escape args) args
AllRead-escaped [] = tt
AllRead-escaped (a ∷ args) = (Reads-escaped a, AllRead-escaped args)

join-AllRead : (ps ws : List String) → AllRead ps ws → words (join " " ps) ≡ some ws
unfolding words join split
join-AllRead [] [] h = refl
join-AllRead (p ∷ []) (w ∷ []) h = ap (split between "") (sym (append-nil p)) ∙ h.0 ""
join-AllRead (p ∷ q ∷ ps) (w ∷ v ∷ ws) h =
    h.0 (" " <> join " " (q ∷ ps))
    ∙ ap (split bare w) (single-append (char 32 tt) (join " " (q ∷ ps)))
    ∙ ap (finish w) (join-AllRead (q ∷ ps) (v ∷ ws) h.1)
join-AllRead [] (w ∷ ws) h = absurd h
join-AllRead (p ∷ ps) [] h = absurd h
join-AllRead (p ∷ []) (w ∷ v ∷ ws) h = absurd h.1
join-AllRead (p ∷ q ∷ ps) (w ∷ []) h = absurd h.1

module _ (bin : String) (plain : is_word bin ≡ true) (model prompt : String)
    (extra_args : List String) where
  last_word : AllRead (shell_escape prompt ∷ []) (prompt ∷ [])
  last_word = (Reads-escaped prompt, tt)

  rest_words :
      AllRead (map shell_escape extra_args ++ shell_escape prompt ∷ []) (extra_args ++ prompt ∷ [])
  rest_words =
      AllRead-append (map shell_escape extra_args) (shell_escape prompt ∷ []) extra_args
        (prompt ∷ []) (AllRead-escaped extra_args) last_word

  -- The shell reads the command for `claude` as the program and these arguments, whatever characters
  -- the model, the prompts and the extra arguments hold: each of them is one word, unchanged, and the
  -- prompt is the last. The program's path has only letters, digits and `- . / _`.
  pub claude-words :
      (system_prompt : Option String)
      → words (build_claude_command bin model system_prompt prompt extra_args)
        ≡ some (
            bin
              ∷ "--print"
              ∷ "--model"
              ∷ claude_cli_model model
              ∷ "--output-format"
              ∷ "stream-json"
              ∷ "--verbose"
              ∷ "--include-partial-messages"
              ∷ "--dangerously-skip-permissions"
              ∷ "--system-prompt"
              ∷ compose_claude_system_prompt system_prompt
              ∷ extra_args
            ++ prompt ∷ [])
  unfolding build_claude_command
  claude-words system_prompt = join-AllRead _ _ (
    Reads-plain bin plain,
    (
      Reads-plain "--print" refl,
      (
        Reads-plain "--model" refl,
        (
          Reads-escaped (claude_cli_model model),
          (
            Reads-plain "--output-format" refl,
            (
              Reads-plain "stream-json" refl,
              (
                Reads-plain "--verbose" refl,
                (
                  Reads-plain "--include-partial-messages" refl,
                  (
                    Reads-plain "--dangerously-skip-permissions" refl,
                    (
                      Reads-plain "--system-prompt" refl,
                      (Reads-escaped (compose_claude_system_prompt system_prompt), rest_words),
                    ),
                  ),
                ),
              ),
            ),
          ),
        ),
      ),
    ),
  )

  -- The shell reads the command for `ollama` as the program and these arguments, whatever characters
  -- the model, the prompt and the extra arguments hold, if the program's path is plain.
  pub ollama-words :
      words (build_ollama_command bin model prompt extra_args)
      ≡ some (bin ∷ "run" ∷ model ∷ extra_args ++ prompt ∷ [])
  unfolding build_ollama_command
  ollama-words =
      join-AllRead _ _
        (Reads-plain bin plain, (Reads-plain "run" refl, (Reads-escaped model, rest_words)))

module _ (bin : String) (plain : is_word bin ≡ true) (model user_prompt : String)
    (system_prompt : Option String) (extra_args : List String) where
  full_auto :
      (b : Bool)
      → AllRead (if b then [] else "--full-auto" ∷ []) (if b then [] else "--full-auto" ∷ [])
  full_auto true = tt
  full_auto false = (Reads-plain "--full-auto" refl, tt)

  model_flag :
      (b : Bool)
      → AllRead
          (if b then [] else "-m" ∷ shell_escape model ∷ [])
          (if b then [] else "-m" ∷ model ∷ [])
  model_flag true = tt
  model_flag false = (Reads-plain "-m" refl, (Reads-escaped model, tt))

  -- The shell reads the command for `codex` as the program and these arguments, whatever characters the
  -- model, the prompts and the extra arguments hold, if the program's path is plain: the prompt is one
  -- word and the last, the model is named unless it is the default, and `--full-auto` stands there
  -- unless the extra arguments override it.
  pub codex-words :
      words (build_codex_command bin model system_prompt user_prompt extra_args)
      ≡ some (
          bin ∷ "exec" ∷ (if extras_override_full_auto extra_args then [] else "--full-auto" ∷ [])
          ++ ((if str_eq model "default" then [] else "-m" ∷ model ∷ [])
              ++ (extra_args ++ codex_prompt system_prompt user_prompt ∷ [])))
  unfolding build_codex_command
  codex-words = join-AllRead _ _ (
    Reads-plain bin plain,
    (
      Reads-plain "exec" refl,
      AllRead-append _ _ _ _ (full_auto (extras_override_full_auto extra_args)) (
          AllRead-append _ _ _ _ (model_flag (str_eq model "default"))
            (rest_words bin plain model (codex_prompt system_prompt user_prompt) extra_args)),
    ),
  )
