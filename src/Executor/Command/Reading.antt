-- ===== src/Executor/Command/Reading.antt =====
-- How the shell reads one part of a command.
use Prim.Native.Char.{Char, char, code}
use kuromaku.Prelude.{
  ℕ, String, ◌≡◌, refl, sym, ap, ◌∙◌, inl, inr, true, false, Bool-cases, ◌==◌, arith,
}
use kuromaku.Prelude.Text.{◌<>◌}
use text.Mathlib.TextLemmas.{append-nil, append_assoc, nil-append, cons-append}
use text.Mathlib.TextEquality.{Char-path}
use kuromaku.Executor.Command.{replace_quotes, shell_escape}
use kuromaku.Executor.Command.Shell.{
  Class, between, bare, quoted, is_plain, class, single, split, all_plain, is_word,
}

quote_char : (c : Char) → (code c == 39) ≡ true → c ≡ char 39 tt
quote_char c h = Char-path c (char 39 tt) (ground (arith, h))

pub single-append : (c : Char) (s : String) → single c <> s ≡ String.◌∷◌ c s
single-append c s = cons-append c "" s ∙ ap (String.◌∷◌ c) (nil-append s)

abbrev quote : Char
quote = char 39 tt

abbrev backslash : Char
backslash = char 92 tt

escape-append :
    (s : String)
    → "'\\''" <> s ≡ String.◌∷◌ quote (String.◌∷◌ backslash (String.◌∷◌ quote (String.◌∷◌ quote s)))
escape-append s =
    cons-append quote "\\''" s
    ∙ ap (String.◌∷◌ quote) (
        cons-append backslash "''" s
        ∙ ap (String.◌∷◌ backslash)
            (cons-append quote "'" s ∙ ap (String.◌∷◌ quote) (single-append quote s)))

grow :
    (w s rest : String) (c : Char)
    → split bare ((w <> single c) <> s) rest ≡ split bare (w <> String.◌∷◌ c s) rest
grow w s rest c =
    ap (λ x. split bare x rest) (append_assoc w (single c) s ∙ ap (λ x. w <> x) (single-append c s))

quoted_char :
    (c : Char) (w s : String)
    → (code c == 39) ≡ false
    → split quoted w (String.◌∷◌ c s) ≡ split quoted (w <> single c) s
unfolding split
quoted_char c w s h = rw (split, h) refl

quoted_text :
    (s w rest : String)
    → split quoted w (replace_quotes s <> "'" <> rest) ≡ split bare (w <> s) rest
unfolding split replace_quotes
quoted_text String.[] w rest =
    ap (split quoted w) (nil-append ("'" <> rest) ∙ single-append quote rest)
    ∙ ap (λ x. split bare x rest) (sym (append-nil w))
quoted_text (String.◌∷◌ c s) w rest =
    let more = "'" <> rest in
    elim (Bool-cases (code c == 39)) [
      | inl e ↦
          let escaped_here : replace_quotes (String.◌∷◌ c s) ≡ "'\\''" <> replace_quotes s =
            rw (replace_quotes, e) refl in
          ap (λ x. split quoted w (x <> more)) escaped_here
          ∙ ap (split quoted w) (
              append_assoc "'\\''" (replace_quotes s) more
              ∙ escape-append (replace_quotes s <> more))
          ∙ quoted_text s (w <> "'") rest
          ∙ grow w s rest quote
          ∙ ap (λ d. split bare (w <> String.◌∷◌ d s) rest) (sym (quote_char c e))
      | inr e ↦
          let kept : replace_quotes (String.◌∷◌ c s) ≡ String.◌∷◌ c (replace_quotes s) =
            rw (replace_quotes, e) refl in
          ap (λ x. split quoted w (x <> more)) kept
          ∙ ap (split quoted w) (cons-append c (replace_quotes s) more)
          ∙ quoted_char c w (replace_quotes s <> more) e
          ∙ quoted_text s (w <> single c) rest
          ∙ grow w s rest c
    ]

plain_class : (c : ℕ) → is_plain c ≡ true → class c ≡ Class.plain
plain_class c h = ground (arith, h)

bare_char :
    (c : Char) (w s : String)
    → is_plain (code c) ≡ true
    → split bare w (String.◌∷◌ c s) ≡ split bare (w <> single c) s
unfolding split
bare_char c w s h = rw (split, plain_class (code c) h) refl

plain_text :
    (s w rest : String) → all_plain s ≡ true → split bare w (s <> rest) ≡ split bare (w <> s) rest
plain_text String.[] w rest h =
    ap (split bare w) (nil-append rest) ∙ ap (λ x. split bare x rest) (sym (append-nil w))
plain_text (String.◌∷◌ c s) w rest h =
    ap (split bare w) (cons-append c s rest)
    ∙ bare_char c w (s <> rest) (ground (arith, h))
    ∙ plain_text s (w <> single c) rest (ground (arith, h))
    ∙ grow w s rest c

-- The part of a command that is read as one word.
abbrev pub Reads : String → String → Type 0
Reads part word = (rest : String) → split between "" (part <> rest) ≡ split bare word rest

pub Reads-escaped : (s : String) → Reads (shell_escape s) s
unfolding split shell_escape
Reads-escaped s rest =
    ap (split between "") (
      append_assoc "'" (replace_quotes s <> "'") rest
      ∙ single-append quote ((replace_quotes s <> "'") <> rest)
      ∙ ap (String.◌∷◌ quote) (append_assoc (replace_quotes s) "'" rest))
    ∙ quoted_text s "" rest
    ∙ ap (λ x. split bare x rest) (nil-append s)

between_char :
    (c : Char) (s : String)
    → is_plain (code c) ≡ true
    → split between "" (String.◌∷◌ c s) ≡ split bare (single c) s
unfolding split
between_char c s h = rw (split, plain_class (code c) h) refl

pub Reads-plain : (s : String) → is_word s ≡ true → Reads s s
Reads-plain String.[] h rest = cc
Reads-plain (String.◌∷◌ c s) h rest =
    ap (split between "") (cons-append c s rest)
    ∙ between_char c (s <> rest) (ground (arith, h))
    ∙ plain_text s (single c) rest (ground (arith, h))
    ∙ ap (λ x. split bare x rest) (single-append c s)
