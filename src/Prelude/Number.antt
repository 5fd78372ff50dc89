-- ===== src/Prelude/Number.antt =====
-- Numbers as text, and the signed numbers that exit codes are.
pub mod Reading
use Prim.Native.Nat.{ℕ, zero, suc, ◌+◌, ◌/◌, ◌%◌}
use Prim.Native.String.{String}
use mathlib.Core.Bool.{Bool, false}
use kuromaku.Prelude.Tests.{ltb, ◌==◌, if◌then◌else◌}
use kuromaku.Prelude.Text.{◌<>◌}

-- `negsuc n` is -(n + 1).
pub data ℤ : Type 0 where
  pos : ℕ → ℤ
  negsuc : ℕ → ℤ

abbrev pub is_zero : ℤ → Bool
is_zero (pos n) = n == 0
is_zero (negsuc n) = false

unfoldable pub digit : ℕ → String
digit n =
    if n == 0
    then "0"
    else if n == 1
    then "1"
    else if n == 2
    then "2"
    else if n == 3
    then "3"
    else if n == 4
    then "4"
    else if n == 5
    then "5"
    else if n == 6
    then "6"
    else if n == 7
    then "7"
    else if n == 8
    then "8"
    else "9"

-- The decimal digits; the number itself is fuel enough, since each round divides by ten.
unfoldable pub digits : ℕ → ℕ → String
unfolding digit
digits zero n = digit n
digits (suc f) n =
    let front = digits f (n / 10) in if ltb n 10 then digit n else front <> digit (n % 10)

unfoldable pub show : ℕ → String
unfolding digits
show n = digits n n

unfoldable pub show_int : ℤ → String
unfolding show
show_int (pos n) = show n
show_int (negsuc n) = "-" <> show (n + 1)

-- `{n:02}`.
unfoldable pub show_padded : ℕ → String
unfolding show
show_padded n = if ltb n 10 then "0" <> show n else show n
