-- ===== src/Stack/Runs/Names.antt =====
-- The name of a step's meta file gives its number and its id back to the reader of src/stack.rs.
use Prim.Native.Char.{char}
use kuromaku.Prelude.{
  ℕ, ◌^◌, ◌<◌, String, ◌≡◌, refl, sym, ap, ◌∙◌, inl, inr, true, false, Option, none, some, ltb,
  str_eq_refl, str-cases, Bool-cases, if◌then◌else◌, arith,
}
use kuromaku.Prelude.Text.{◌<>◌, is_empty, strip_prefix}
use kuromaku.Prelude.Number.{show, show_padded}
use kuromaku.Prelude.Number.Reading.{value, value-show}
use text.Mathlib.TextLemmas.{nil-append, cons-append, append_cancel_right}
use kuromaku.Runner.Graph.Disk.{step_meta_filename, trim_digits}
use kuromaku.Runner.Graph.Disk.Names.{
  is_digit, all_digits, all_digits-show_padded, trim_digits-prefix, dash,
}
use kuromaku.Stack.Runs.{take_digits, strip_suffix, u32_of, passes, wanted}

take_digits-prefix :
    (p t : String) → all_digits p ≡ true → take_digits t ≡ "" → take_digits (p <> t) ≡ p
unfolding take_digits
take_digits-prefix String.[] t h e = ap take_digits (nil-append t) ∙ e
take_digits-prefix (String.◌∷◌ c p) t h e =
    let d : is_digit c ≡ true = ground (arith, h) in
    ap take_digits (cons-append c p t)
    ∙ rw (take_digits, d) (ap (String.◌∷◌ c) (take_digits-prefix p t (ground (arith, h)) e))

strip_suffix_self : (s : String) → strip_suffix s s ≡ some ""
unfolding strip_suffix
strip_suffix_self String.[] = rw (strip_suffix, str_eq_refl "") refl
strip_suffix_self (String.◌∷◌ c s) = rw (strip_suffix, str_eq_refl (String.◌∷◌ c s)) refl

strip_suffix-append : (s suffix : String) → strip_suffix suffix (s <> suffix) ≡ some s
unfolding strip_suffix
strip_suffix-append String.[] suffix =
    ap (strip_suffix suffix) (nil-append suffix) ∙ strip_suffix_self suffix
strip_suffix-append (String.◌∷◌ c s) suffix =
    let same = cons-append c s suffix in
    elim (str-cases (String.◌∷◌ c (s <> suffix)) suffix) [
      | inl (e, whole) ↦ absurd (
          cc (
            append_cancel_right (String.◌∷◌ c s) "" suffix
              (same ∙ whole ∙ sym (nil-append suffix))))
      | inr e ↦
          ap (strip_suffix suffix) same ∙ rw (strip_suffix, e, strip_suffix-append s suffix) refl
    ]

-- The number in the name of a meta file, below the reader's bound.
u32_of-show_padded : (n : ℕ) → n < 2 ^ 32 → u32_of (show_padded n) ≡ n
unfolding u32_of show_padded
u32_of-show_padded n h =
    let read : value 0 (show_padded n) ≡ n = elim (Bool-cases (ltb n 10)) [
      | inl e ↦
          rw (show_padded, e)
            (ap (value 0) (cons-append (char 48 tt) "" (show n))
              ∙ ap (value 0) (nil-append (show n))
              ∙ value-show n)
      | inr e ↦ rw (show_padded, e) (value-show n)
    ] in
    let small : ltb n (2 ^ 32) ≡ true = ground (arith, h) in rw (u32_of, read, small) refl

empty_text : (s : String) → is_empty s ≡ true → s ≡ ""
unfolding is_empty
empty_text String.[] h = refl
empty_text (String.◌∷◌ c s) h = absurd (cc)

ltb_zero : (n : ℕ) → n ≡ 0 → ltb n 10 ≡ true
ltb_zero n h = ground arith

show_padded_some : (n : ℕ) → is_empty (show_padded n) ≡ false
unfolding show_padded is_empty
show_padded_some n = elim (Bool-cases (ltb n 10)) [
  | inl e ↦ rw (show_padded, e) (ap is_empty (cons-append (char 48 tt) "" (show n)))
  | inr e ↦ elim (Bool-cases (is_empty (show n))) [
    | inr some_text ↦ rw (show_padded, e) some_text
    | inl no_text ↦
        absurd
          (cc (ltb_zero n (sym (value-show n) ∙ ap (value 0) (empty_text (show n) no_text)), e))
  ]
]

-- A file with the name of a step's meta file is the meta file of this step.
pub wanted-step_meta_filename :
    (filter : Option String) (n : ℕ) (id : String)
    → n < 2 ^ 32
    → wanted filter (step_meta_filename n id) ≡ (if passes filter id then some n else none)
unfolding wanted step_meta_filename strip_prefix trim_digits take_digits
wanted-step_meta_filename filter n id h =
    let rest = "-" <> id <> ".meta.yaml" in
    let after : trim_digits (step_meta_filename n id)
        ≡ String.◌∷◌ (char 45 tt) (id <> ".meta.yaml") =
      trim_digits-prefix (show_padded n) rest (all_digits-show_padded n)
      ∙ ap trim_digits (dash (id <> ".meta.yaml")) in
    let no_digits : take_digits rest ≡ "" = ap take_digits (dash (id <> ".meta.yaml")) in
    let before : take_digits (step_meta_filename n id) ≡ show_padded n =
      take_digits-prefix (show_padded n) rest (all_digits-show_padded n) no_digits in
    rw
      (
        wanted,
        before,
        after,
        show_padded_some n,
        strip_suffix-append id ".meta.yaml",
        u32_of-show_padded n h,
      )
      refl
