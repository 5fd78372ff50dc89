-- ===== src/Executor/Stream/Line.antt =====
-- What a line of the agent's output yields (src/executor/stream_json.rs).
use kuromaku.Prelude.{
  String, ◌≡◌, ◌↔◌, refl, sym, ◌∙◌, ◌⊎◌, inl, inr, true, false, Option, none, some, List, [], ◌∷◌,
  Bool-cases, Option-cases,
}
use kuromaku.Prelude.Text.{is_empty, trim}
use kuromaku.Messaging.Router.{Fragment}
use kuromaku.Executor.Stream.{Json, parse_value, parse_line}
use kuromaku.Executor.Stream.Meaning.{Means}
use kuromaku.Executor.Stream.Events.{One, parse_value-One, parse_value_complete}

-- The event that a line carries, when it is read.
abbrev pub LineMeans : (String → Option Json) → String → Fragment → Type 0
LineMeans from_str line f =
    (v : Json) × (is_empty (trim line) ≡ false) × (from_str (trim line) ≡ some v) × Means v f

abbrev pub AtMostOne : List Fragment → Type 0
AtMostOne l = (l ≡ []) ⊎ ((f : Fragment) × (l ≡ f ∷ []))

module _ (from_str : String → Option Json) where
  blank_line : (line : String) → is_empty (trim line) ≡ true → parse_line from_str line ≡ []
  unfolding parse_line
  blank_line line e = rw e refl

  unread_line : (line : String) → from_str (trim line) ≡ none → parse_line from_str line ≡ []
  unfolding parse_line
  unread_line line e = elim (Bool-cases (is_empty (trim line))) [
    | inl h ↦ rw h refl
    | inr h ↦ rw (h, e) refl
  ]

  read_line :
      (line : String) (v : Json)
      → is_empty (trim line) ≡ false
      → from_str (trim line) ≡ some v
      → parse_line from_str line ≡ parse_value v
  unfolding parse_line
  read_line line v h e = rw (h, e) refl

  parse_line-One : (line : String) → One (LineMeans from_str line) (parse_line from_str line)
  parse_line-One line = elim (Bool-cases (is_empty (trim line))) [
    | inl h ↦ inl (blank_line line h)
    | inr h ↦ elim (Option-cases (from_str (trim line))) [
      | inl e ↦ inl (unread_line line e)
      | inr (v, e) ↦ elim (parse_value-One v) [
        | inl none_there ↦ inl (read_line line v h e ∙ none_there)
        | inr (f, only, means) ↦ inr (f, read_line line v h e ∙ only, (v, h, e, means))
      ]
    ]
  ]

  at_most_one : (P : Fragment → Type 0) (l : List Fragment) → One P l → AtMostOne l
  at_most_one P l (inl e) = inl e
  at_most_one P l (inr (f, e, p)) = inr (f, e)

  fragment_eq : (f g : Fragment) → f ∷ [] ≡ g ∷ [] → f ≡ g
  fragment_eq f g h = cc (h)

  only_one : (P : Fragment → Type 0) (l : List Fragment) (f : Fragment) → One P l → l ≡ f ∷ [] → P f
  only_one P l f (inl e) h = absurd (cc)
  only_one P l f (inr (g, e, p)) h = rw (fragment_eq f g (sym h ∙ e)) p

-- Whatever a line holds, it yields at most one fragment, and it yields a fragment just where the line is not blank,
-- is read as a value, and the value is an event that carries the fragment.
pub parse_line-Means :
    (from_str : String → Option Json) (line : String)
    → AtMostOne (parse_line from_str line)
      × ((f : Fragment) → (parse_line from_str line ≡ f ∷ []) ↔ LineMeans from_str line f)
parse_line-Means from_str line = (
  at_most_one from_str (LineMeans from_str line) (parse_line from_str line)
      (parse_line-One from_str line),
  λ f. (
    only_one from_str (LineMeans from_str line) (parse_line from_str line) f
        (parse_line-One from_str line),
    λ m. let (v, h, e, means) = m in read_line from_str line v h e ∙ parse_value_complete v f means,
  ),
)
