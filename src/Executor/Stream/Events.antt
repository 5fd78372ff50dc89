-- ===== src/Executor/Stream/Events.antt =====
-- Which lines mean something: an independent description of the events, and their reading.
use kuromaku.Prelude.{
  String, ◌≡◌, refl, sym, ap, ◌∙◌, ◌⊎◌, inl, inr, false, Option, none, some, List, [], ◌∷◌, str_eq,
  Bool-cases, Option-cases,
}
use kuromaku.Prelude.Text.{is_empty}
use kuromaku.Messaging.Router.{Fragment, text, tool_use, result}
use kuromaku.Executor.Stream.{
  Json, string, get, get_str, or_text, type_of, unless_empty, for_field, parse_delta, parse_block,
  parse_event, parse_stream_event, parse_result, parse_value,
}
use kuromaku.Executor.Stream.Meaning.{
  Means, TextAt-get_str, TextAt-type_of, ToolAt, at, finished, get_str-TextAt, spoke, step,
  type_of-TextAt, used_tool,
}

abbrev pub One : (Fragment → Type 0) → List Fragment → Type 0
One P l = (l ≡ []) ⊎ ((f : Fragment) × (l ≡ f ∷ []) × P f)

One-field :
    (P : Fragment → Type 0) (f : Json → List Fragment) (o : Option Json)
    → ((x : Json) → o ≡ some x → One P (f x))
    → One P (for_field f o)
One-field P f none h = inl refl
One-field P f (some x) h = h x refl

One-unless :
    (P : Fragment → Type 0) (f : String → Fragment) (o : Option String)
    → ((s : String) → o ≡ some s → is_empty s ≡ false → P (f s))
    → One P (unless_empty f o)
One-unless P f none h = inl refl
One-unless P f (some s) h = elim (Bool-cases (is_empty s)) [
  | inl e ↦ rw e (inl refl)
  | inr e ↦ rw e (inr (f s, refl, h s refl e))
]

module _ (v : Json) where
  parse_delta-One :
      (event delta : Json)
      → get "type" v ≡ some (string "stream_event")
      → get "event" v ≡ some event
      → get "type" event ≡ some (string "content_block_delta")
      → get "delta" event ≡ some delta
      → One (Means v) (parse_delta delta)
  unfolding parse_delta str_eq
  parse_delta-One event delta a b c d = elim (Bool-cases (str_eq (type_of delta) "text_delta")) [
    | inr e ↦ rw (parse_delta, e) (inl refl)
    | inl e ↦
        rw (parse_delta, e)
          (One-unless (Means v) text (get_str "text" delta) (λ s h some_text.
            let within = λ (k : String). ap (step k) (ap (step "delta") b ∙ d) in
            spoke a (ap (step "type") b ∙ c)
              (within "type" ∙ type_of-TextAt delta "text_delta" refl e)
              (within "text" ∙ get_str-TextAt "text" delta s h) some_text))
  ]

  tool_name :
      (event block : Json)
      → get "event" v ≡ some event
      → get "content_block" event ≡ some block
      → ToolAt v (or_text "unknown" (get_str "name" block))
  tool_name event block b d =
      let within : at ("event" ∷ "content_block" ∷ "name" ∷ []) (some v) ≡ get "name" block =
        ap (step "name") (ap (step "content_block") b ∙ d) in
      elim (Option-cases (get_str "name" block)) [
        | inr (s, e) ↦ rw e (inl (within ∙ get_str-TextAt "name" block s e))
        | inl e ↦ rw e (inr (refl, λ s h. cc (TextAt-get_str "name" block s (sym within ∙ h), e)))
      ]

  parse_block-One :
      (event block : Json)
      → get "type" v ≡ some (string "stream_event")
      → get "event" v ≡ some event
      → get "type" event ≡ some (string "content_block_start")
      → get "content_block" event ≡ some block
      → One (Means v) (parse_block block)
  unfolding parse_block str_eq
  parse_block-One event block a b c d = elim (Bool-cases (str_eq (type_of block) "tool_use")) [
    | inr e ↦ rw (parse_block, e) (inl refl)
    | inl e ↦
        rw (parse_block, e)
          (inr (
            tool_use (or_text "unknown" (get_str "name" block)),
            refl,
            used_tool a (ap (step "type") b ∙ c)
                (ap (step "type") (ap (step "content_block") b ∙ d)
                  ∙ type_of-TextAt block "tool_use" refl e)
                (tool_name event block b d),
          ))
  ]

  parse_event-One :
      (event : Json)
      → get "type" v ≡ some (string "stream_event")
      → get "event" v ≡ some event
      → One (Means v) (parse_event event)
  unfolding parse_event str_eq
  parse_event-One event a b = elim (Bool-cases (str_eq (type_of event) "content_block_delta")) [
    | inl e ↦
        rw (parse_event, e)
          (One-field (Means v) parse_delta (get "delta" event) (λ delta d.
            parse_delta-One event delta a b (type_of-TextAt event "content_block_delta" refl e) d))
    | inr e ↦ elim (Bool-cases (str_eq (type_of event) "content_block_start")) [
      | inl f ↦
          rw (parse_event, e, f)
            (One-field (Means v) parse_block (get "content_block" event) (λ block d.
              parse_block-One event block a b (type_of-TextAt event "content_block_start" refl f)
                d))
      | inr f ↦ rw (parse_event, e, f) (inl refl)
    ]
  ]

  pub parse_value-One : One (Means v) (parse_value v)
  unfolding parse_value parse_stream_event parse_result str_eq
  parse_value-One = elim (Bool-cases (str_eq (type_of v) "assistant")) [
    | inl e ↦ rw (parse_value, e) (inl refl)
    | inr e ↦ elim (Bool-cases (str_eq (type_of v) "stream_event")) [
      | inl f ↦
          rw (parse_value, e, f)
            (One-field (Means v) parse_event (get "event" v)
              (λ event b. parse_event-One event (type_of-TextAt v "stream_event" refl f) b))
      | inr f ↦ elim (Bool-cases (str_eq (type_of v) "result")) [
        | inl g ↦
            rw (parse_value, e, f, g)
              (One-unless (Means v) result (get_str "result" v) (λ s h some_text.
                finished (type_of-TextAt v "result" refl g) (get_str-TextAt "result" v s h)
                  some_text))
        | inr g ↦ rw (parse_value, e, f, g) (inl refl)
      ]
    ]
  ]

  stream_value : get "type" v ≡ some (string "stream_event") → parse_value v ≡ parse_stream_event v
  unfolding parse_value str_eq
  stream_value a = rw (parse_value, TextAt-type_of v "stream_event" a) refl

  result_value : get "type" v ≡ some (string "result") → parse_value v ≡ parse_result v
  unfolding parse_value str_eq
  result_value a = rw (parse_value, TextAt-type_of v "result" a) refl

  -- The value in the middle of a path.
  stepped :
      (k : String) (o : Option Json) (x : Json) → step k o ≡ some x → (y : Json) × (o ≡ some y)
  stepped k none x h = absurd (cc)
  stepped k (some y) x h = (y, refl)

  tool_named :
      (block : Json) (name : String)
      → at ("event" ∷ "content_block" ∷ "name" ∷ []) (some v) ≡ get "name" block
      → ToolAt v name
      → or_text "unknown" (get_str "name" block) ≡ name
  tool_named block name within (inl h) =
      ap (or_text "unknown") (TextAt-get_str "name" block name (sym within ∙ h))
  tool_named block name within (inr (same, none_there)) =
      elim (Option-cases (get_str "name" block)) [
        | inl no_name ↦ ap (or_text "unknown") no_name ∙ sym same
        | inr (s, some_name) ↦
            absurd (none_there s (within ∙ get_str-TextAt "name" block s some_name))
      ]

  pub parse_value_complete : (f : Fragment) → Means v f → parse_value v ≡ f ∷ []
  unfolding parse_stream_event parse_event parse_delta parse_block parse_result str_eq
  parse_value_complete (text s) (spoke a b c d some_text) =
      let (event, e) = stepped "type" (get "event" v) (string "content_block_delta") b in
      let (delta, g) = stepped "type" (step "delta" (get "event" v)) (string "text_delta") c in
      let kind : type_of event ≡ "content_block_delta" =
        TextAt-type_of event "content_block_delta" (sym (ap (step "type") e) ∙ b) in
      let at_delta : get "delta" event ≡ some delta = sym (ap (step "delta") e) ∙ g in
      let delta_kind : type_of delta ≡ "text_delta" =
        TextAt-type_of delta "text_delta" (sym (ap (step "type") g) ∙ c) in
      let words : get_str "text" delta ≡ some s =
        TextAt-get_str "text" delta s (sym (ap (step "text") g) ∙ d) in
      stream_value a
      ∙ rw
          (
            parse_stream_event, e, parse_event, kind, at_delta, parse_delta, delta_kind, words,
            some_text,
          )
          refl
  parse_value_complete (tool_use name) (used_tool a b c d) =
      let (event, e) = stepped "type" (get "event" v) (string "content_block_start") b in
      let (block, g) =
        stepped "type" (step "content_block" (get "event" v)) (string "tool_use") c in
      let kind : type_of event ≡ "content_block_start" =
        TextAt-type_of event "content_block_start" (sym (ap (step "type") e) ∙ b) in
      let at_block : get "content_block" event ≡ some block =
        sym (ap (step "content_block") e) ∙ g in
      let block_kind : type_of block ≡ "tool_use" =
        TextAt-type_of block "tool_use" (sym (ap (step "type") g) ∙ c) in
      stream_value a
      ∙ rw (parse_stream_event, e, parse_event, kind, at_block, parse_block, block_kind)
          (ap (λ n. tool_use n ∷ []) (tool_named block name (ap (step "name") g) d))
  parse_value_complete (result s) (finished a b some_text) =
      let words : get_str "result" v ≡ some s = TextAt-get_str "result" v s b in
      result_value a ∙ rw (parse_result, words, some_text) refl
