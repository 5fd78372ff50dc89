-- ===== src/Prelude/Number/Reading.antt =====
-- Decimal digits determine the number.
use Prim.Native.Char.{code}
use Prim.Native.Nat.{ℕ, zero, suc, ◌+◌, ◌-◌, ◌*◌, ◌/◌, ◌%◌, ◌≤◌, ◌<◌}
use Prim.Native.String.{String}
use mathlib.Core.Path.{◌≡◌, sym, ap, ◌∙◌}
use mathlib.Core.Logic.{inl, inr}
use native.Mathlib.Omega.{arith}
use text.Mathlib.TextLemmas.{nil-append, cons-append}
use kuromaku.Prelude.Tests.{ltb, Bool-cases}
use kuromaku.Prelude.Text.{◌<>◌}
use kuromaku.Prelude.Number.{digit, digits, show}

abbrev pub value : ℕ → String → ℕ
value acc String.[] = acc
value acc (String.◌∷◌ c s) = value (acc * 10 + (code c - 48)) s

value-append : (acc : ℕ) (p q : String) → value acc (p <> q) ≡ value (value acc p) q
value-append acc String.[] q = ap (value acc) (nil-append q)
value-append acc (String.◌∷◌ c p) q =
    ap (value acc) (cons-append c p q) ∙ value-append (acc * 10 + (code c - 48)) p q

value-digit : (acc n : ℕ) → n < 10 → value acc (digit n) ≡ acc * 10 + n
unfolding digit
value-digit acc zero h = omega arith
value-digit acc (suc zero) h = omega arith
value-digit acc (suc (suc zero)) h = omega arith
value-digit acc (suc (suc (suc zero))) h = omega arith
value-digit acc (suc (suc (suc (suc zero)))) h = omega arith
value-digit acc (suc (suc (suc (suc (suc zero))))) h = omega arith
value-digit acc (suc (suc (suc (suc (suc (suc zero)))))) h = omega arith
value-digit acc (suc (suc (suc (suc (suc (suc (suc zero))))))) h = omega arith
value-digit acc (suc (suc (suc (suc (suc (suc (suc (suc zero)))))))) h = omega arith
value-digit acc (suc (suc (suc (suc (suc (suc (suc (suc (suc zero))))))))) h = omega arith
value-digit acc (suc (suc (suc (suc (suc (suc (suc (suc (suc (suc n)))))))))) h =
    absurd (omega arith)

value-digits : (f n : ℕ) → n ≤ f → value 0 (digits f n) ≡ n
unfolding digits
value-digits zero n h = value-digit 0 n (omega arith) ∙ omega arith
value-digits (suc f) n h = elim (Bool-cases (ltb n 10)) [
  | inl e ↦ rw (digits, e) (value-digit 0 n (ground (arith, e)) ∙ omega arith)
  | inr e ↦
      let big : 10 ≤ n = ground (arith, e) in
      rw (digits, e)
        (value-append 0 (digits f (n / 10)) (digit (n % 10))
          ∙ ap (λ a. value a (digit (n % 10))) (value-digits f (n / 10) (omega arith))
          ∙ value-digit (n / 10) (n % 10) (omega arith)
          ∙ omega arith)
]

pub value-show : (n : ℕ) → value 0 (show n) ≡ n
unfolding show
value-show n = value-digits n n (omega arith)

-- Numbers with one decimal form are one number.
pub show-injective : (m n : ℕ) → show m ≡ show n → m ≡ n
show-injective m n h = sym (value-show m) ∙ ap (value 0) h ∙ value-show n
