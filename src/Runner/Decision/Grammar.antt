-- ===== src/Runner/Decision/Grammar.antt =====
-- The blocks of a reply by a grammar: braces nest, and inside a text literal they do not count.
use kuromaku.Prelude.{
  ℕ, zero, suc, ◌≡◌, refl, sym, ap, subst, ◌∙◌, All, false, List, [], ◌∷◌, ◌++◌, append-nil,
  append_assoc, ◌==◌,
}
use kuromaku.Runner.Decision.{
  Bytes, open_brace, close_brace, quote, backslash, top_level_json_objects,
}
use kuromaku.Runner.Decision.Scanner.{Mode, outside, code, text, escape, objects, top_level-objects}

-- The inside of a text literal: a backslash takes the next byte with it.
pub data Chars : Bytes → Type 0 where
  stop : Chars []
  plain :
      {c : ℕ} {s : Bytes}
      → (c == backslash) ≡ false
      → (c == quote) ≡ false
      → Chars s
      → Chars (c ∷ s)
  escaped : {c : ℕ} {s : Bytes} → Chars s → Chars (backslash ∷ c ∷ s)

-- What stands between two matching braces.
pub data Body : Bytes → Type 0 where
  stop : Body []
  plain :
      {c : ℕ} {b : Bytes}
      → (c == quote) ≡ false
      → (c == open_brace) ≡ false
      → (c == close_brace) ≡ false
      → Body b
      → Body (c ∷ b)
  literal : {s b : Bytes} → Chars s → Body b → Body (quote ∷ s ++ (quote ∷ b))
  nested : {a b : Bytes} → Body a → Body b → Body (open_brace ∷ a ++ (close_brace ∷ b))

-- A block with its braces.
abbrev pub braces : Bytes → Bytes
braces b = open_brace ∷ b ++ (close_brace ∷ [])

-- A text with the blocks that stand in it; all else holds no open brace.
pub data Prose : Bytes → List Bytes → Type 0 where
  stop : Prose [] []
  plain :
      {c : ℕ} {p : Bytes} {bs : List Bytes}
      → (c == open_brace) ≡ false
      → Prose p bs
      → Prose (c ∷ p) bs
  block :
      {b p : Bytes} {bs : List Bytes}
      → Body b
      → Prose p bs
      → Prose (open_brace ∷ b ++ (close_brace ∷ p)) (braces b ∷ bs)

-- What can follow an open brace that is never closed: a whole inside, a further brace that is not closed either, or a
-- text literal that has not ended, be it behind a backslash.
pub data Unclosed : Bytes → Type 0 where
  whole : {b : Bytes} → Body b → Unclosed b
  deeper : {a b : Bytes} → Body a → Unclosed b → Unclosed (a ++ (open_brace ∷ b))
  in_text : {a s : Bytes} → Body a → Chars s → Unclosed (a ++ (quote ∷ s))
  in_escape : {a s : Bytes} → Body a → Chars s → Unclosed (a ++ (quote ∷ s ++ (backslash ∷ [])))

-- The scanner takes the piece `p` into the open block.
abbrev Runs : Mode → Bytes → Mode → Type 0
Runs m p m' = (acc rest : Bytes) → objects m acc (p ++ rest) ≡ objects m' (acc ++ p) rest

Runs-nil : (m : Mode) → Runs m [] m
Runs-nil m acc rest = ap (λ a. objects m a rest) (sym (append-nil acc))

Runs-trans : (m m' m'' : Mode) (p q : Bytes) → Runs m p m' → Runs m' q m'' → Runs m (p ++ q) m''
Runs-trans m m' m'' p q r s acc rest =
    ap (objects m acc) (append_assoc p q rest)
    ∙ r acc (q ++ rest)
    ∙ s (acc ++ p) rest
    ∙ ap (λ a. objects m'' a rest) (append_assoc acc p q)

Runs-char :
    (d c : ℕ) → (c == backslash) ≡ false → (c == quote) ≡ false → Runs (text d) (c ∷ []) (text d)
unfolding objects
Runs-char d c h k acc rest = rw (h, k)

Runs-escaped : (d c : ℕ) → Runs (text d) (backslash ∷ c ∷ []) (text d)
unfolding objects
Runs-escaped d c acc rest =
    ap (λ a. objects (text d) a rest) (append_assoc acc (backslash ∷ []) (c ∷ []))

Runs-Chars : (d : ℕ) {s : Bytes} → Chars s → Runs (text d) s (text d)
Runs-Chars d stop = Runs-nil (text d)
Runs-Chars d (plain {c} {s} h k t) =
    Runs-trans _ (text d) _ (c ∷ []) s (Runs-char d c h k) (Runs-Chars d t)
Runs-Chars d (escaped {c} {s} t) =
    Runs-trans _ (text d) _ (backslash ∷ c ∷ []) s (Runs-escaped d c) (Runs-Chars d t)

Runs-plain :
    (d c : ℕ)
    → (c == quote) ≡ false
    → (c == open_brace) ≡ false
    → (c == close_brace) ≡ false
    → Runs (code d) (c ∷ []) (code d)
unfolding objects
Runs-plain zero c h k l acc rest = rw (h, k, l)
Runs-plain (suc d) c h k l acc rest = rw (h, k, l)

Runs-quote : (d : ℕ) → Runs (code d) (quote ∷ []) (text d)
unfolding objects
Runs-quote zero acc rest = refl
Runs-quote (suc d) acc rest = refl

Runs-unquote : (d : ℕ) → Runs (text d) (quote ∷ []) (code d)
unfolding objects
Runs-unquote d acc rest = refl

Runs-open : (d : ℕ) → Runs (code d) (open_brace ∷ []) (code (suc d))
unfolding objects
Runs-open zero acc rest = refl
Runs-open (suc d) acc rest = refl

Runs-close : (d : ℕ) → Runs (code (suc d)) (close_brace ∷ []) (code d)
unfolding objects
Runs-close d acc rest = refl

Runs-Body : (d : ℕ) {b : Bytes} → Body b → Runs (code d) b (code d)
Runs-Body d stop = Runs-nil (code d)
Runs-Body d (plain {c} {b} h k l t) =
    Runs-trans _ (code d) _ (c ∷ []) b (Runs-plain d c h k l) (Runs-Body d t)
Runs-Body d (literal {s} {b} t u) =
    Runs-trans _ (text d) _ (quote ∷ []) (s ++ (quote ∷ b)) (Runs-quote d) (
      Runs-trans _ (text d) _ s (quote ∷ b) (Runs-Chars d t)
        (Runs-trans _ (code d) _ (quote ∷ []) b (Runs-unquote d) (Runs-Body d u)))
Runs-Body d (nested {a} {b} t u) =
    Runs-trans _ (code (suc d)) _ (open_brace ∷ []) (a ++ (close_brace ∷ b)) (Runs-open d) (
      Runs-trans _ (code (suc d)) _ a (close_brace ∷ b) (Runs-Body (suc d) t)
        (Runs-trans _ (code d) _ (close_brace ∷ []) b (Runs-close d) (Runs-Body d u)))

objects-block :
    {b : Bytes} (rest : Bytes)
    → Body b
    → objects outside [] (open_brace ∷ b ++ (close_brace ∷ rest))
      ≡ braces b ∷ objects outside [] rest
unfolding objects
objects-block {b} rest t = Runs-Body 0 t (open_brace ∷ []) (close_brace ∷ rest)

objects-plain :
    (c : ℕ) (rest : Bytes)
    → (c == open_brace) ≡ false
    → objects outside [] (c ∷ rest) ≡ objects outside [] rest
unfolding objects
objects-plain c rest h = rw h

objects-end : (m : Mode) (acc p : Bytes) (m' : Mode) → Runs m p m' → objects m acc p ≡ []
unfolding objects
objects-end m acc p m' r = ap (objects m acc) (sym (append-nil p)) ∙ r acc []

objects-Chars :
    (d : ℕ) {a s : Bytes} (acc : Bytes)
    → Body a
    → Chars s
    → objects (code d) acc (a ++ (quote ∷ s)) ≡ []
objects-Chars d {a} {s} acc t u = objects-end (code d) acc (a ++ (quote ∷ s)) (text d) (
    Runs-trans _ (code d) _ a (quote ∷ s) (Runs-Body d t)
      (Runs-trans _ (text d) _ (quote ∷ []) s (Runs-quote d) (Runs-Chars d u)))

Runs-backslash : (d : ℕ) → Runs (text d) (backslash ∷ []) (escape d)
unfolding objects
Runs-backslash d acc rest = refl

objects-Unclosed : (d : ℕ) {b : Bytes} (acc : Bytes) → Unclosed b → objects (code d) acc b ≡ []
objects-Unclosed d {b} acc (whole t) = objects-end (code d) acc b (code d) (Runs-Body d t)
objects-Unclosed d acc (deeper {a} {b} t u) =
    Runs-Body d t acc (open_brace ∷ b)
    ∙ Runs-open d (acc ++ a) b
    ∙ objects-Unclosed (suc d) ((acc ++ a) ++ open_brace ∷ []) u
objects-Unclosed d acc (in_text t u) = objects-Chars d acc t u
objects-Unclosed d acc (in_escape {a} {s} t u) =
    objects-end (code d) acc (a ++ (quote ∷ s ++ (backslash ∷ []))) (escape d) (
      Runs-trans _ (code d) _ a (quote ∷ s ++ (backslash ∷ [])) (Runs-Body d t) (
        Runs-trans _ (text d) _ (quote ∷ []) (s ++ (backslash ∷ [])) (Runs-quote d)
          (Runs-trans _ (text d) _ s (backslash ∷ []) (Runs-Chars d u) (Runs-backslash d))))

objects-open : {b : Bytes} → Unclosed b → objects outside [] (open_brace ∷ b) ≡ []
unfolding objects
objects-open u = objects-Unclosed 0 (open_brace ∷ []) u

objects-nil : objects outside [] [] ≡ []
unfolding objects
objects-nil = refl

objects-Prose :
    {p : Bytes} {bs : List Bytes} (rest : Bytes)
    → Prose p bs
    → objects outside [] (p ++ rest) ≡ bs ++ objects outside [] rest
objects-Prose rest stop = refl
objects-Prose rest (plain {c} {p} {bs} h t) = objects-plain c (p ++ rest) h ∙ objects-Prose rest t
objects-Prose rest (block {b} {p} {bs} t u) =
    ap (λ q. objects outside [] (open_brace ∷ q)) (append_assoc b (close_brace ∷ p) rest)
    ∙ objects-block (p ++ rest) t
    ∙ ap (◌∷◌ (braces b)) (objects-Prose rest u)

-- What the scan of a reply returns: the blocks that stand in it, in their order, each with its
-- braces. Braces in text literals do not count, and a nested block is not returned on its own. A
-- brace that is still open at the end, in whatever way, adds nothing.
pub top_level-Prose :
    {p b : Bytes} {bs : List Bytes}
    → Prose p bs
    → Unclosed b
    → (top_level_json_objects p ≡ bs) × (top_level_json_objects (p ++ (open_brace ∷ b)) ≡ bs)
top_level-Prose {p} {b} {bs} t u = (
  top_level-objects p
      ∙ ap (objects outside []) (sym (append-nil p))
      ∙ objects-Prose [] t
      ∙ ap (◌++◌ bs) objects-nil
      ∙ append-nil bs,
  top_level-objects (p ++ (open_brace ∷ b))
      ∙ objects-Prose (open_brace ∷ b) t
      ∙ ap (◌++◌ bs) (objects-open u)
      ∙ append-nil bs,
)

pub Prose-append :
    {p q : Bytes} {bs cs : List Bytes} → Prose p bs → Prose q cs → Prose (p ++ q) (bs ++ cs)
Prose-append stop u = u
Prose-append (plain h t) u = plain h (Prose-append t u)
Prose-append {q} {cs} (block {b} {p} {bs} t u) v =
    subst (λ l. Prose (open_brace ∷ l) (braces b ∷ (bs ++ cs)))
      (sym (append_assoc b (close_brace ∷ p) q)) (block t (Prose-append u v))

pub Prose-plain : (tail : Bytes) → All (λ c. (c == open_brace) ≡ false) tail → Prose tail []
Prose-plain [] h = stop
Prose-plain (c ∷ tail) h = plain h.0 (Prose-plain tail h.1)
