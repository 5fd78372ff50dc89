-- ===== src/Runner/Graph/Disk/Names.antt =====
-- The names of the meta files: a step's id can be read off the name.
use Prim.Native.Char.{Char, char, code}
use kuromaku.Prelude.{
  ℕ, zero, suc, ◌/◌, ◌%◌, String, ◌≡◌, refl, sym, ap, ◌∙◌, inl, inr, Bool, true, false, ◌&&◌, leb,
  ltb, ◌==◌, str_eq, str_eq_iff, str_eq_refl, str-cases, Bool-cases, if◌then◌else◌, arith,
}
use kuromaku.Prelude.Text.{◌<>◌, strip_prefix}
use kuromaku.Prelude.Number.{digit, digits, show, show_padded}
use text.Mathlib.TextLemmas.{nil-append, cons-append, append_cancel_right}
use kuromaku.Runner.Graph.Disk.{step_meta_filename, trim_digits, is_meta_of}

abbrev pub is_digit : Char → Bool
is_digit c = leb 48 (code c) && leb (code c) 57

abbrev pub all_digits : String → Bool
all_digits String.[] = true
all_digits (String.◌∷◌ c s) = is_digit c && all_digits s

pub trim_digits-prefix : (p t : String) → all_digits p ≡ true → trim_digits (p <> t) ≡ trim_digits t
unfolding trim_digits
trim_digits-prefix String.[] t h = ap trim_digits (nil-append t)
trim_digits-prefix (String.◌∷◌ c p) t h =
    let d : is_digit c ≡ true = ground (arith, h) in
    let dropped : trim_digits (String.◌∷◌ c (p <> t)) ≡ trim_digits (p <> t) =
      rw (trim_digits, d) refl in
    ap trim_digits (cons-append c p t) ∙ dropped ∙ trim_digits-prefix p t (ground (arith, h))

all_digits-append :
    (p q : String) → all_digits p ≡ true → all_digits q ≡ true → all_digits (p <> q) ≡ true
all_digits-append String.[] q h k = ap all_digits (nil-append q) ∙ k
all_digits-append (String.◌∷◌ c p) q h k =
    let d : is_digit c ≡ true = ground (arith, h) in
    ap all_digits (cons-append c p q) ∙ rw d (all_digits-append p q (ground (arith, h)) k)

all_digits-if :
    (b : Bool) (p q : String)
    → all_digits p ≡ true
    → all_digits q ≡ true
    → all_digits (if b then p else q) ≡ true
all_digits-if true p q h k = h
all_digits-if false p q h k = k

all_digits-digit : (n : ℕ) → all_digits (digit n) ≡ true
unfolding digit
all_digits-digit n = all_digits-if (n == 0) "0" _ refl (
    all_digits-if (n == 1) "1" _ refl (
      all_digits-if (n == 2) "2" _ refl (
        all_digits-if (n == 3) "3" _ refl (
          all_digits-if (n == 4) "4" _ refl (
            all_digits-if (n == 5) "5" _ refl (
              all_digits-if (n == 6) "6" _ refl
                (all_digits-if (n == 7) "7" _ refl (all_digits-if (n == 8) "8" "9" refl refl))))))))

all_digits-digits : (f n : ℕ) → all_digits (digits f n) ≡ true
unfolding digits
all_digits-digits zero n = all_digits-digit n
all_digits-digits (suc f) n = elim (Bool-cases (ltb n 10)) [
  | inl e ↦ rw (digits, e) (all_digits-digit n)
  | inr e ↦
      rw (digits, e)
        (all_digits-append (digits f (n / 10)) (digit (n % 10)) (all_digits-digits f (n / 10))
          (all_digits-digit (n % 10)))
]

pub all_digits-show_padded : (n : ℕ) → all_digits (show_padded n) ≡ true
unfolding show_padded show
all_digits-show_padded n = elim (Bool-cases (ltb n 10)) [
  | inl e ↦ rw (show_padded, e) (all_digits-append "0" (digits n n) refl (all_digits-digits n n))
  | inr e ↦ rw (show_padded, e) (all_digits-digits n n)
]

pub dash : (t : String) → "-" <> t ≡ String.◌∷◌ (char 45 tt) t
dash t = cons-append (char 45 tt) "" t ∙ ap (String.◌∷◌ (char 45 tt)) (nil-append t)

str_eq-append : (a b t : String) → str_eq (a <> t) (b <> t) ≡ str_eq a b
str_eq-append a b t = elim (str-cases a b) [
  | inl (e, same) ↦ rw (e, same) (str_eq_refl (b <> t))
  | inr e ↦ elim (Bool-cases (str_eq (a <> t) (b <> t))) [
    | inr f ↦ f ∙ sym e
    | inl f ↦
        let same : a ≡ b = append_cancel_right a b t ((str_eq_iff (a <> t) (b <> t)).0 f) in
        absurd (cc (str_eq_refl a, e, same))
  ]
]

-- The name of a step's meta file is taken for that of `step_id` exactly if it is this step's: neither
-- digits at the front of an id nor ids that end in another one are confused.
pub is_meta_of-step_meta_filename :
    (n : ℕ) (id step_id : String) → is_meta_of step_id (step_meta_filename n id) ≡ str_eq id step_id
unfolding is_meta_of step_meta_filename strip_prefix trim_digits
is_meta_of-step_meta_filename n id step_id =
    let found : trim_digits (step_meta_filename n id)
        ≡ String.◌∷◌ (char 45 tt) (id <> ".meta.yaml") =
      trim_digits-prefix (show_padded n) ("-" <> id <> ".meta.yaml") (all_digits-show_padded n)
      ∙ ap trim_digits (dash (id <> ".meta.yaml")) in
    rw (is_meta_of, found) (str_eq-append id step_id ".meta.yaml")
