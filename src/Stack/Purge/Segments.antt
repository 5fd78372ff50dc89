-- ===== src/Stack/Purge/Segments.antt =====
-- Which project names the purge of src/stack.rs lets through.
use Prim.Native.Char.{code}
use kuromaku.Prelude.{
  ℕ, String, ◌≡◌, ◌≢◌, refl, inl, inr, true, false, List, [], ◌∷◌, All, str_eq, str-cases, arith,
}
use kuromaku.Prelude.Text.{is_empty}
use kuromaku.Stack.Purge.{contains_code, starts_with_dot, is_bad_name}

abbrev pub codes : String → List ℕ
codes String.[] = []
codes (String.◌∷◌ c s) = code c ∷ codes s

-- Neither a separator nor NUL.
abbrev pub IsPlain : ℕ → Type 0
IsPlain c = (c ≢ 47) × (c ≢ 92) × (c ≢ 0)

-- One segment of a path that is not hidden.
pub record IsSegment (name : String) : Type 0 where
  pub first : ℕ
  pub others : List ℕ
  pub is_text : codes name ≡ first ∷ others
  pub not_hidden : first ≢ 46
  pub plain : All IsPlain (codes name)

contains_code_none :
    (s : String)
    → contains_code 47 s ≡ false
    → contains_code 92 s ≡ false
    → contains_code 0 s ≡ false
    → All IsPlain (codes s)
unfolding contains_code
contains_code_none String.[] a b c = tt
contains_code_none (String.◌∷◌ x s) a b c = (
  (ground arith, ground arith, ground arith),
  contains_code_none s (ground arith) (ground arith) (ground arith),
)

plain-contains_code :
    (s : String)
    → All IsPlain (codes s)
    → (contains_code 47 s ≡ false) × (contains_code 92 s ≡ false) × (contains_code 0 s ≡ false)
unfolding contains_code
plain-contains_code String.[] h = (refl, refl, refl)
plain-contains_code (String.◌∷◌ x s) h =
    let (a, b, c) = plain-contains_code s h.1 in (ground arith, ground arith, ground arith)

pub good_name : (name : String) → is_bad_name name ≡ false → IsSegment name
unfolding is_bad_name is_empty starts_with_dot
good_name String.[] h = absurd (cc)
good_name (String.◌∷◌ c s) h = record {
  first = code c;
  others = codes s;
  is_text = refl;
  not_hidden = ground arith;
  plain = contains_code_none (String.◌∷◌ c s) (ground arith) (ground arith) (ground arith);
}

-- The two names of directories begin with a dot.
dots :
    (s name : String)
    → starts_with_dot s ≡ true
    → starts_with_dot name ≡ false
    → str_eq name s ≡ false
dots s name h k = elim (str-cases name s) [ inl (e, same) ↦ absurd (cc (h, k, same)) | inr e ↦ e ]

pub segment_good : (name : String) → IsSegment name → is_bad_name name ≡ false
unfolding is_bad_name is_empty starts_with_dot
segment_good String.[] g = absurd (cc (g.is_text))
segment_good (String.◌∷◌ c s) g =
    let name = String.◌∷◌ c s in
    let first : code c ≡ g.first = cc (g.is_text) in
    let shown : starts_with_dot name ≡ false = let h = g.not_hidden in ground arith in
    let (a, b, d) = plain-contains_code name g.plain in
    rw (is_bad_name, dots "." name refl shown, dots ".." name refl shown, shown, a, b, d) refl
