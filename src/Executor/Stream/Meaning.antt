-- ===== src/Executor/Stream/Meaning.antt =====
-- Which values of src/executor/stream_json.rs mean something: an independent description of the events.
use kuromaku.Prelude.{
  String, ◌≡◌, sym, ap, ◌∙◌, ◌⊎◌, inl, inr, true, false, Option, none, some, List, [], ◌∷◌, str_eq,
  str_eq_iff, Option-cases, arith,
}
use kuromaku.Prelude.Text.{is_empty}
use kuromaku.Messaging.Router.{Fragment, text, tool_use, result}
use kuromaku.Executor.Stream.{Json, string, get, get_str, text_of, or_text, type_of}

abbrev pub step : String → Option Json → Option Json
step k none = none
step k (some v) = get k v

-- The value at the end of a path of keys.
abbrev pub at : List String → Option Json → Option Json
at [] o = o
at (k ∷ ks) o = at ks (step k o)

abbrev pub TextAt : List String → Json → String → Type 0
TextAt path v s = at path (some v) ≡ some (string s)

-- The tool that a block names; without a name it is unknown.
abbrev pub ToolAt : Json → String → Type 0
ToolAt v name =
    TextAt ("event" ∷ "content_block" ∷ "name" ∷ []) v name
    ⊎ ((name ≡ "unknown") × ((s : String) → ¬ TextAt ("event" ∷ "content_block" ∷ "name" ∷ []) v s))

-- The events that carry a fragment.
pub data Means (v : Json) : Fragment → Type 0 where
  spoke :
      {s : String}
      → TextAt ("type" ∷ []) v "stream_event"
      → TextAt ("event" ∷ "type" ∷ []) v "content_block_delta"
      → TextAt ("event" ∷ "delta" ∷ "type" ∷ []) v "text_delta"
      → TextAt ("event" ∷ "delta" ∷ "text" ∷ []) v s
      → is_empty s ≡ false
      → Means v (text s)
  used_tool :
      {name : String}
      → TextAt ("type" ∷ []) v "stream_event"
      → TextAt ("event" ∷ "type" ∷ []) v "content_block_start"
      → TextAt ("event" ∷ "content_block" ∷ "type" ∷ []) v "tool_use"
      → ToolAt v name
      → Means v (tool_use name)
  finished :
      {s : String}
      → TextAt ("type" ∷ []) v "result"
      → TextAt ("result" ∷ []) v s
      → is_empty s ≡ false
      → Means v (result s)

text_of-string : (o : Option Json) (s : String) → text_of o ≡ some s → o ≡ some (string s)
text_of-string none s h = ground arith
text_of-string (some (string t)) s h = ground arith
text_of-string (some v) s h = ground arith

pub get_str-TextAt :
    (k : String) (v : Json) (s : String) → get_str k v ≡ some s → get k v ≡ some (string s)
unfolding get_str
get_str-TextAt k v s h = text_of-string (get k v) s h

pub TextAt-get_str :
    (k : String) (v : Json) (s : String) → get k v ≡ some (string s) → get_str k v ≡ some s
unfolding get_str
TextAt-get_str k v s h = ap text_of h

type_of-absent : (v : Json) → get_str "type" v ≡ none → type_of v ≡ ""
unfolding type_of
type_of-absent v h = ap (or_text "") h

type_of-present : (v : Json) (t : String) → get_str "type" v ≡ some t → type_of v ≡ t
unfolding type_of
type_of-present v t h = ap (or_text "") h

-- A type that is not empty is there.
pub type_of-TextAt :
    (v : Json) (s : String)
    → str_eq "" s ≡ false
    → str_eq (type_of v) s ≡ true
    → get "type" v ≡ some (string s)
type_of-TextAt v s some_text h = elim (Option-cases (get_str "type" v)) [
  | inl e ↦ absurd (cc (rw (type_of-absent v e) at h, some_text))
  | inr (t, e) ↦
      get_str-TextAt "type" v s
        (e ∙ ap some (sym (type_of-present v t e) ∙ (str_eq_iff (type_of v) s).0 h))
]

pub TextAt-type_of : (v : Json) (s : String) → get "type" v ≡ some (string s) → type_of v ≡ s
TextAt-type_of v s h = type_of-present v s (TextAt-get_str "type" v s h)
