-- ===== src/Runner/Decision.antt =====
-- src/runner/decision.rs: how an agent's reply is read. A reply is the list of its UTF-8 bytes.
pub mod Scanner
pub mod Grammar
pub mod Choice
pub mod Utf8
mod Tests
use kuromaku.Prelude.{
  ℕ, zero, suc, ◌+◌, ◌-◌, String, Bool, true, false, Option, none, some, List, [], ◌∷◌, ◌++◌, map,
  ◌==◌, contains, if◌then◌else◌,
}
use mathlib.Core.List.{reverse}
use kuromaku.Prelude.Result.{Result, ok, err}

abbrev pub Bytes : Type 0
Bytes = List ℕ

abbrev pub open_brace : ℕ
open_brace = b'{'

abbrev pub close_brace : ℕ
close_brace = b'}'

abbrev pub quote : ℕ
quote = b'"'

abbrev pub backslash : ℕ
backslash = 0x5C

pub record AgentDecision : Type 0 where
  pub transition : String
  pub reason : String

module _ {ℓ} {A : Type ℓ} where
  unfoldable pub take : ℕ → List A → List A
  take zero xs = []
  take (suc n) [] = []
  take (suc n) (x ∷ xs) = x ∷ take n xs

  unfoldable pub drop : ℕ → List A → List A
  drop zero xs = xs
  drop (suc n) [] = []
  drop (suc n) (x ∷ xs) = drop n xs

-- `&raw[first..=last]`.
unfoldable pub slice : Bytes → ℕ → ℕ → Bytes
slice raw first last = take (suc last - first) (drop first raw)

-- The variables of the loop in `top_level_json_objects`.
pub record Scan : Type 0 where
  pub start : Option ℕ
  pub depth : ℕ
  pub in_string : Bool
  pub escaped : Bool
  pub out : List Bytes

-- The part of the loop's body that runs inside an object that began at `first`.
unfoldable pub scan_inside : Bytes → ℕ → ℕ → ℕ → Scan → Scan
unfolding slice
scan_inside raw first idx byte s =
    if s.in_string
    then if s.escaped
      then record s { escaped = false }
      else if byte == backslash
      then record s { escaped = true }
      else if byte == quote
      then record s { in_string = false }
      else s
    else if byte == quote
    then record s { in_string = true }
    else if byte == open_brace
    then record s { depth = s.depth + 1 }
    else if byte == close_brace
    then if s.depth - 1 == 0
      then record s { start = none; depth = 0; out = s.out ++ slice raw first idx ∷ [] }
      else record s { depth = s.depth - 1 }
    else s

-- The loop's body, at the byte with the index `idx`.
unfoldable pub scan_byte : Bytes → ℕ → ℕ → Scan → Scan
scan_byte raw idx byte s = elim s.start [
  | none ↦ if byte == open_brace then record s { start = some idx; depth = 1 } else s
  | some first ↦ scan_inside raw first idx byte s
]

unfoldable pub scan : Bytes → ℕ → Bytes → Scan → Scan
scan raw idx [] s = s
scan raw idx (byte ∷ bytes) s = scan raw (suc idx) bytes (scan_byte raw idx byte s)

abbrev pub fresh : Scan
fresh = record { start = none; depth = 0; in_string = false; escaped = false; out = [] }

unfoldable pub top_level_json_objects : Bytes → List Bytes
top_level_json_objects raw = (scan raw 0 raw fresh).out

-- `E` stands for serde_json's error.
pub data DecisionParseError (E : Type 0) : Type 0 where
  no_json_object : DecisionParseError E
  invalid_json : E → DecisionParseError E

-- The loop from the end, `last_err` being what the candidates tried so far left behind. `none`: the
-- `expect` on an empty list of candidates, which the caller has ruled out.
module _ {E : Type 0} (from_str : Bytes → Result E AgentDecision) where
  unfoldable pub try_candidates :
      List Bytes → Option E → Option (Result (DecisionParseError E) AgentDecision)
  try_candidates [] none = none
  try_candidates [] (some e) = some (err (invalid_json e))
  try_candidates (c ∷ cs) last_err = elim (from_str c) [
    | ok d ↦ some (ok d)
    | err e ↦ try_candidates cs (some e)
  ]

  unfoldable pub parse_agent_decision : Bytes → Option (Result (DecisionParseError E) AgentDecision)
  parse_agent_decision raw = elim (top_level_json_objects raw) [
    | [] ↦ some (err no_json_object)
    | c ∷ cs ↦ try_candidates (reverse (c ∷ cs)) none
  ]

pub data DecisionError : Type 0 where
  unknown_transition : (value : String) (allowed : List String) → DecisionError

unfoldable pub validate_transition : AgentDecision → List String → Result DecisionError (Unit {0})
validate_transition d allowed =
    if contains d.transition allowed then ok tt else err (unknown_transition d.transition allowed)
