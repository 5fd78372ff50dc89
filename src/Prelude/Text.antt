-- ===== src/Prelude/Text.antt =====
-- What the program uses of Rust's `str`: `trim` over Unicode white space, and the tests on ends.
pub mod Sorting
use Prim.Native.Char.{code}
use Prim.Native.String.{String, compare, ◌++◌ as append}
use mathlib.Core.Bool.{Bool, true, false, ◌&&◌, ◌||◌}
use mathlib.Core.List.{List, [], ◌∷◌}
use mathlib.Core.Option.{Option, none, some}
use Prim.Native.Nat.{ℕ, Ordering}
use kuromaku.Prelude.Tests.{leb, ◌==◌, if◌then◌else◌}

-- `char::is_whitespace`: the code points with the property White_Space.
unfoldable pub is_whitespace : ℕ → Bool
is_whitespace c =
    (leb 9 c && leb c 13)
    || c == 32
    || c == 0x85
    || c == 0xA0
    || c == 0x1680
    || (leb 0x2000 c && leb c 0x200A)
    || c == 0x2028
    || c == 0x2029
    || c == 0x202F
    || c == 0x205F
    || c == 0x3000

unfoldable pub is_empty : String → Bool
is_empty String.[] = true
is_empty (String.◌∷◌ c s) = false

unfoldable pub trim_start : String → String
unfolding is_whitespace
trim_start String.[] = String.[]
trim_start (String.◌∷◌ c s) = if is_whitespace (code c) then trim_start s else String.◌∷◌ c s

-- A character that can be dropped at the end: white space before nothing that stays.
unfoldable pub trim_end : String → String
unfolding is_whitespace is_empty
trim_end String.[] = String.[]
trim_end (String.◌∷◌ c s) =
    let rest = trim_end s in
    if is_whitespace (code c) && is_empty rest then String.[] else String.◌∷◌ c rest

unfoldable pub trim : String → String
unfolding trim_start trim_end
trim s = trim_end (trim_start s)

-- `s.trim().is_empty()`.
unfoldable pub is_blank : String → Bool
unfolding trim is_empty
is_blank s = is_empty (trim s)

-- `push_str` and the pieces of a `format!`.
infixr 65 ◌<>◌
abbrev pub ◌<>◌ : String → String → String
s <> t = append s t

-- `[String]::join`.
unfoldable pub join : String → List String → String
join sep [] = ""
join sep (x ∷ []) = x
join sep (x ∷ y ∷ ys) = x <> sep <> join sep (y ∷ ys)

abbrev pub text_le : String → String → Bool
text_le s t = elim (compare s t) [ Ordering.gt ↦ false | _ ↦ true ]

unfoldable pub insert_sorted : String → List String → List String
insert_sorted x [] = x ∷ []
insert_sorted x (y ∷ ys) = if text_le x y then x ∷ y ∷ ys else y ∷ insert_sorted x ys

-- `sort` and `sort_unstable` on texts: equal texts cannot be told apart.
unfoldable pub sort : List String → List String
unfolding insert_sorted
sort [] = []
sort (x ∷ xs) = insert_sorted x (sort xs)

-- `str::ends_with('\n')`.
unfoldable pub ends_with_newline : String → Bool
unfolding is_empty
ends_with_newline String.[] = false
ends_with_newline (String.◌∷◌ c s) =
    let rest = ends_with_newline s in if is_empty s then code c == 10 else rest

-- `trim_end_matches('\n')`.
unfoldable pub trim_newlines : String → String
unfolding is_empty
trim_newlines String.[] = String.[]
trim_newlines (String.◌∷◌ c s) =
    let rest = trim_newlines s in
    if code c == 10 && is_empty rest then String.[] else String.◌∷◌ c rest

-- `str::strip_prefix`.
unfoldable pub strip_prefix : String → String → Option String
strip_prefix String.[] s = some s
strip_prefix (String.◌∷◌ c p) String.[] = none
strip_prefix (String.◌∷◌ c p) (String.◌∷◌ d s) =
    let rest = strip_prefix p s in if code c == code d then rest else none
