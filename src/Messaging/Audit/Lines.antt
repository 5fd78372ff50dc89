-- ===== src/Messaging/Audit/Lines.antt =====
-- A line that is written is read back as it was.
use kuromaku.Prelude.{
  String, ◌≡◌, refl, ap, ◌∙◌, Bool, true, false, not, ◌&&◌, List, ◌∷◌, ◌==◌, arith,
}
use Prim.Native.Char.{Char, code}
use kuromaku.Prelude.Text.{◌<>◌}
use text.Mathlib.TextLemmas.{nil-append, cons-append}
use kuromaku.Messaging.Audit.{lines}

-- No line feed and no carriage return.
unfoldable pub is_plain : String → Bool
is_plain String.[] = true
is_plain (String.◌∷◌ c s) = not (code c == 10) && not (code c == 13) && is_plain s

lines-plain :
    (c : Char) (s l : String) (ls : List String)
    → code c == 10 ≡ false
    → code c == 13 ≡ false
    → lines s ≡ l ∷ ls
    → lines (String.◌∷◌ c s) ≡ String.◌∷◌ c l ∷ ls
unfolding lines
lines-plain c s l ls no_feed no_return h = rw (lines, no_feed, no_return, h) refl

newline-append : (rest : String) → "\n" <> rest ≡ String.◌∷◌ "\n" rest
newline-append rest = cons-append "\n" String.[] rest ∙ ap (String.◌∷◌ "\n") (nil-append rest)

lines-cons : (rest : String) → lines (String.◌∷◌ "\n" rest) ≡ "" ∷ lines rest
unfolding lines
lines-cons rest = refl

pub lines_line : (l rest : String) → is_plain l ≡ true → lines (l <> "\n" <> rest) ≡ l ∷ lines rest
unfolding is_plain
lines_line String.[] rest h =
    ap lines (nil-append ("\n" <> rest) ∙ newline-append rest) ∙ lines-cons rest
lines_line (String.◌∷◌ c s) rest h =
    ap lines (cons-append c s ("\n" <> rest))
    ∙ lines-plain c (s <> "\n" <> rest) s (lines rest) (ground arith) (ground arith)
        (lines_line s rest (ground arith))
