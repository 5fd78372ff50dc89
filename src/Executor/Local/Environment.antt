-- ===== src/Executor/Local/Environment.antt =====
-- The environment of a child (src/executor/local.rs): which variable has which value in it.
use kuromaku.Prelude.{
  String, ◌≡◌, refl, ap, ◌∙◌, inl, inr, Option, none, some, List, [], ◌∷◌, Assoc, keys, lookup,
  insert, lookup-insert, Distinct, Member, contains, str_eq, str-cases, Option-cases, Bool-cases,
  if◌then◌else◌,
}
use kuromaku.Executor.Local.{allowed_env_vars, inherit, set_all, child_env}

-- A value, or what stands before it.
abbrev pub over : Option String → Option String → Option String
over none d = d
over (some v) d = some v

over-none : (o : Option String) → over o none ≡ o
over-none none = refl
over-none (some v) = refl

abbrev pub if_allowed : (String → Option String) → List String → String → Option String
if_allowed var names k = if contains k names then var k else none

lookup_absent : (k : String) (env : Assoc String) → ¬ Member k (keys env) → lookup k env ≡ none
unfolding lookup
lookup_absent k [] n = refl
lookup_absent k ((j, v) ∷ m) n = elim (str-cases k j) [
  | inl (e, same) ↦ absurd (n (inl same))
  | inr e ↦ rw e (lookup_absent k m (λ later. n (inr later)))
]

lookup-set_all :
    (k : String) (env below : Assoc String)
    → Distinct (keys env)
    → lookup k (set_all env below) ≡ over (lookup k env) (lookup k below)
unfolding set_all lookup
lookup-set_all k [] below d = refl
lookup-set_all k ((j, v) ∷ m) below d = elim (str-cases k j) [
  | inl (e, same) ↦
      rw
        (
          lookup-set_all k m (insert j v below) d.1,
          lookup-insert j k v below,
          e,
          lookup_absent k m (rw same d.0),
        )
        refl
  | inr e ↦ rw (lookup-set_all k m (insert j v below) d.1, lookup-insert j k v below, e) refl
]

-- One variable that is inherited, if the parent has it.
abbrev put : (String → Option String) → String → Assoc String → Assoc String
put var j env = elim (var j) [ none ↦ env | some v ↦ insert j v env ]

lookup-put :
    (var : String → Option String) (k j : String) (env : Assoc String)
    → lookup k (put var j env) ≡ (if str_eq k j then over (var j) (lookup k env) else lookup k env)
lookup-put var k j env = elim (Option-cases (var j)) [
  | inr (v, f) ↦ rw (put, f) (lookup-insert j k v env)
  | inl f ↦ rw (put, f) (elim (Bool-cases (str_eq k j)) [ inl e ↦ rw e refl | inr e ↦ rw e refl ])
]

inherit-put :
    (var : String → Option String) (j : String) (names : List String) (env : Assoc String)
    → inherit var (j ∷ names) env ≡ inherit var names (put var j env)
unfolding inherit
inherit-put var j names env = elim (Option-cases (var j)) [
  | inl f ↦ rw (inherit, put, f) refl
  | inr (v, f) ↦ rw (inherit, put, f) refl
]

over_twice : (o d : Option String) → over o (over o d) ≡ over o d
over_twice none d = refl
over_twice (some v) d = refl

lookup-inherit :
    (var : String → Option String) (k : String) (names : List String) (below : Assoc String)
    → lookup k (inherit var names below) ≡ over (if_allowed var names k) (lookup k below)
unfolding inherit contains
lookup-inherit var k [] below = refl
lookup-inherit var k (j ∷ names) below =
    ap (lookup k) (inherit-put var j names below)
    ∙ lookup-inherit var k names (put var j below)
    ∙ ap (over (if_allowed var names k)) (lookup-put var k j below)
    ∙ elim (str-cases k j) [
      | inr e ↦ rw e refl
      | inl (e, same) ↦ elim (Bool-cases (contains k names)) [
        | inl g ↦ rw (e, g, ← same) (over_twice (var k) (lookup k below))
        | inr g ↦ rw (e, g, ← same) refl
      ]
    ]

-- A child sees a variable of its task's environment with the value given there, and otherwise a variable of the
-- allowed ones with the parent's value: no other variable of the parent reaches it.
pub lookup-child_env :
    (var : String → Option String) (env : Assoc String) (k : String)
    → Distinct (keys env)
    → lookup k (child_env var env) ≡ over (lookup k env) (if_allowed var allowed_env_vars k)
unfolding child_env lookup
lookup-child_env var env k d =
    lookup-set_all k env (inherit var allowed_env_vars []) d
    ∙ rw (lookup-inherit var k allowed_env_vars [], over-none (if_allowed var allowed_env_vars k))
        refl
