-- ===== src/Core/GraphFlow.antt =====
-- src/core/graph_flow.rs: what a graph flow is, and how its parts are read from and written to YAML
-- values. The YAML text itself is parsed by serde_yaml, which is not part of the program.
pub mod Laws
use kuromaku.Prelude.{
  String, Bool, true, false, ◌||◌, Option, none, some, List, [], ◌∷◌, Assoc, ◌==◌,
}
use kuromaku.Prelude.Text.{join}
use kuromaku.Prelude.Result.{Result, ok, err, ◌>>=◌}

-- The version text. The file may hold it as a text or as an integer.
abbrev pub Version : Type 0
Version = String

pub data SelectReason : Type 0 where
  single : String → SelectReason
  list : List String → SelectReason

unfoldable pub display : SelectReason → String
unfolding join
display (single s) = s
display (list v) = join " | " v

pub record SelectEntry : Type 0 where
  pub target : String
  pub reason : Option SelectReason

pub record GraphState : Type 0 where
  pub role : Option String
  pub task : Option String
  pub task_file : Option String
  pub run : Option String
  pub final_desc : Option String
  pub human : Option Bool
  pub select : Option (List SelectEntry)
  pub extra_args : Assoc (List String)

-- `graph` is an `IndexMap`: its entries in the order of the file, each key once.
pub record GraphFlow : Type 0 where
  pub version : Version
  pub name : String
  pub prompt : Option String
  pub prompt_file : Option String
  pub initial : String
  pub graph : Assoc GraphState

abbrev pub is_some {ℓ} : {A : Type ℓ} → Option A → Bool
is_some none = false
is_some (some a) = true

abbrev pub is_true : Option Bool → Bool
is_true (some true) = true
is_true _ = false

abbrev pub is_final : GraphState → Bool
is_final s = is_some s.final_desc

abbrev pub is_human : GraphState → Bool
is_human s = is_true s.human

abbrev pub is_shell : GraphState → Bool
is_shell s = is_some s.run

abbrev pub is_terminal : GraphState → Bool
is_terminal s = is_final s || is_human s

-- A key of a mapping as a `String` is read from it: every scalar gives its text, be it quoted or not; a sequence and a
-- mapping give none.
pub data Key : Type 0 where
  scalar : (text : String) → Key
  compound : Key

-- The values of YAML, as serde shows them to a visitor. A number stands as its canonical text.
mutual
  pub data Value : Type 0 where
    null : Value
    bool : Bool → Value
    integer : String → Value
    float : String → Value
    string : String → Value
    sequence : Values → Value
    mapping : Entries → Value

  pub data Values : Type 0 where
    nil : Values
    cons : Value → Values → Values

  pub data Entries : Type 0 where
    end : Entries
    entry : Key → Value → Entries → Entries

pub data FormatError : Type 0 where
  invalid_type : FormatError
  empty_map : FormatError
  not_one_key : FormatError
  list_not_strings : FormatError
  bad_reason : FormatError

abbrev pub Parse : Type 0 → Type 0
Parse = Result FormatError

unfoldable pub deserialize_version : Value → Parse Version
deserialize_version (string s) = ok s
deserialize_version (integer n) = ok n
deserialize_version _ = err invalid_type

unfoldable pub serialize_version : Version → Value
serialize_version v = string v

unfoldable pub strings : Values → Parse (List String)
strings nil = ok []
strings (cons (string s) vs) = do rest ← strings vs; ok (s ∷ rest)
strings (cons _ vs) = err list_not_strings

-- The reason that a map's value stands for.
unfoldable pub deserialize_reason : Value → Parse (Option SelectReason)
unfolding strings
deserialize_reason (string s) = ok (some (single s))
deserialize_reason (sequence vs) = do texts ← strings vs; ok (some (list texts))
deserialize_reason null = ok none
deserialize_reason _ = err bad_reason

-- `map.next_key::<String>()?.is_some()` on the entries behind the first.
unfoldable pub no_more_keys : Entries → Parse (Unit {0})
no_more_keys end = ok tt
no_more_keys (entry (scalar k) v es) = err not_one_key
no_more_keys (entry compound v es) = err invalid_type

unfoldable pub deserialize_entry : Value → Parse SelectEntry
unfolding no_more_keys deserialize_reason
deserialize_entry (string s) = ok (record { target = s; reason = none })
deserialize_entry (mapping (entry (scalar k) v es)) = do
  _ ← no_more_keys es
  reason ← deserialize_reason v
  ok (record { target = k; reason = reason })
deserialize_entry (mapping (entry compound v es)) = err invalid_type
deserialize_entry (mapping end) = err empty_map
deserialize_entry _ = err invalid_type

unfoldable pub string_values : List String → Values
string_values [] = nil
string_values (s ∷ ss) = cons (string s) (string_values ss)

abbrev reason_value : String → Option SelectReason → Value
reason_value target none = string target
reason_value target (some (single s)) = mapping (entry (scalar target) (string s) end)
reason_value target (some (list v)) =
    mapping (entry (scalar target) (sequence (string_values v)) end)

unfoldable pub serialize_entry : SelectEntry → Value
unfolding string_values
serialize_entry e = reason_value e.target e.reason
