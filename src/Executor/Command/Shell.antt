-- ===== src/Executor/Command/Shell.antt =====
-- How `sh` splits a command into words, by the rules of POSIX for blanks, single quotes and the
-- backslash. A character that may mean more to the shell has no reading here.
use Prim.Native.Char.{Char, code}
use kuromaku.Prelude.{
  ℕ, String, Bool, true, false, ◌||◌, ◌&&◌, Option, none, some, List, [], ◌∷◌, leb, ◌==◌,
  if◌then◌else◌,
}
use kuromaku.Prelude.Text.{◌<>◌}

pub data Mode : Type 0 where
  between bare quoted escaped : Mode

-- Letters, digits and `- . / _`.
abbrev pub is_plain : ℕ → Bool
is_plain c =
    (leb 97 c && leb c 122)
    || (leb 65 c && leb c 90)
    || (leb 48 c && leb c 57)
    || c == 45
    || c == 46
    || c == 47
    || c == 95

pub data Class : Type 0 where
  blank quote backslash plain special : Class

abbrev pub class : ℕ → Class
class c =
    if c == 32
    then blank
    else if c == 39
    then quote
    else if c == 92
    then backslash
    else if is_plain c
    then plain
    else special

abbrev pub single : Char → String
single c = String.◌∷◌ c ""

abbrev pub finish : String → Option (List String) → Option (List String)
finish w none = none
finish w (some ws) = some (w ∷ ws)

unfoldable pub split : Mode → (word : String) → String → Option (List String)
split between w String.[] = some []
split bare w String.[] = some (w ∷ [])
split quoted w String.[] = none
split escaped w String.[] = none
split between w (String.◌∷◌ c s) = elim (class (code c)) [
  | blank ↦ split between w s
  | quote ↦ split quoted "" s
  | backslash ↦ split escaped "" s
  | plain ↦ split bare (single c) s
  | special ↦ none
]
split bare w (String.◌∷◌ c s) = elim (class (code c)) [
  | blank ↦ finish w (split between "" s)
  | quote ↦ split quoted w s
  | backslash ↦ split escaped w s
  | plain ↦ split bare (w <> single c) s
  | special ↦ none
]
split quoted w (String.◌∷◌ c s) = elim (code c == 39) [
  | true ↦ split bare w s
  | false ↦ split quoted (w <> single c) s
]
split escaped w (String.◌∷◌ c s) = elim (code c == 10) [
  | true ↦ none
  | false ↦ split bare (w <> single c) s
]

-- The words of a command; none where this reading does not say what the shell does.
unfoldable pub words : String → Option (List String)
words s = split between "" s

-- A text of plain characters, with at least one.
abbrev pub all_plain : String → Bool
all_plain String.[] = true
all_plain (String.◌∷◌ c s) = is_plain (code c) && all_plain s

abbrev pub is_word : String → Bool
is_word String.[] = false
is_word (String.◌∷◌ c s) = is_plain (code c) && all_plain s
