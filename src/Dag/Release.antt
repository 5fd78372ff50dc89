-- ===== src/Dag/Release.antt =====
-- The loop over the dependents of a step: no degree falls below 0, and it finds the steps whose last
-- need has run.
use kuromaku.Prelude.{
  ℕ, zero, suc, ◌-◌, ◌≤◌, ◌<◌, String, ◌≡◌, refl, sym, ap, subst, ◌∙◌, inl, inr, true, false, some,
  List, [], ◌∷◌, Member, Distinct, Assoc, lookup, insert, lookup-insert, str_eq, str_eq_refl,
  str-cases, ◌==◌, if◌then◌else◌, Bool-cases, arith,
}
use kuromaku.Prelude.Counting.Occurrences.{count}
use kuromaku.Dag.{release}

-- Each text of the list has a degree that is no less than its occurrences.
abbrev pub Covers : List String → Assoc ℕ → Type 0
Covers ds degrees =
    (k : String) → 0 < count k ds → (n : ℕ) × (lookup k degrees ≡ some n) × (count k ds ≤ n)

pub record Releases (ds : List String) (before : Assoc ℕ) (next : List String) (after : Assoc ℕ)
    : Type 0 where
  pub lowers :
      (k : String) (n : ℕ) → lookup k before ≡ some n → lookup k after ≡ some (n - count k ds)
  pub distinct : Distinct next
  pub freed :
      (k : String) → Member k next → (0 < count k ds) × (lookup k before ≡ some (count k ds))
  pub frees : (k : String) → 0 < count k ds → lookup k before ≡ some (count k ds) → Member k next

module _ (d : String) (ds : List String) (n : ℕ) (before : Assoc ℕ) where
  count-head : count d (d ∷ ds) ≡ suc (count d ds)
  unfolding count
  count-head = rw (str_eq_refl d) (omega arith)

  count-tail : (k : String) → str_eq k d ≡ false → count k (d ∷ ds) ≡ count k ds
  unfolding count
  count-tail k h = rw h (omega arith)

  lookup-head : lookup d (insert d n before) ≡ some n
  lookup-head = lookup-insert d d n before ∙ rw (str_eq_refl d) refl

  lookup-tail : (k : String) → str_eq k d ≡ false → lookup k (insert d n before) ≡ lookup k before
  lookup-tail k h = lookup-insert d k n before ∙ rw h refl

is_zero : {n : ℕ} → n == 0 ≡ true → n ≡ 0
is_zero h = ground arith

positive : (m : ℕ) → 0 < m → (n : ℕ) × (m ≡ suc n)
positive zero h = absurd (omega arith)
positive (suc n) h = (n, refl)

Covers-tail :
    (d : String) (ds : List String) (n : ℕ) (before : Assoc ℕ)
    → lookup d before ≡ some (suc n)
    → Covers (d ∷ ds) before
    → Covers ds (insert d n before)
Covers-tail d ds n before has c k pos = elim (str-cases k d) [
  | inl (t, same) ↦
      let (m, old, low) = c d (omega (arith, count-head d ds n before)) in
      (
        n,
        rw same (lookup-head d ds n before),
        rw same (ground (arith, old, low, has, count-head d ds n before)),
      )
  | inr t ↦
      let (m, old, low) = c k (omega (arith, count-tail d ds n before k t)) in
      (m, lookup-tail d ds n before k t ∙ old, omega (arith, low, count-tail d ds n before k t))
]

module _ (d : String) (ds : List String) (n : ℕ) (before after : Assoc ℕ) (next : List String)
    (has : lookup d before ≡ some (suc n)) (r : Releases ds (insert d n before) next after) where
  cons_lowers :
      (k : String) (m : ℕ) → lookup k before ≡ some m → lookup k after ≡ some (m - count k (d ∷ ds))
  cons_lowers k m old = elim (str-cases k d) [
    | inl (t, same) ↦
        let old' : lookup d before ≡ some m = subst (λ j. lookup j before ≡ some m) same old in
        let eq : suc n ≡ m = ground (arith, has, old') in
        let low = r.lowers d n (lookup-head d ds n before) in
        subst (λ j. lookup j after ≡ some (m - count j (d ∷ ds))) (sym same)
          (low ∙ ap some (omega (arith, eq, count-head d ds n before)))
    | inr t ↦
        r.lowers k m (lookup-tail d ds n before k t ∙ old)
        ∙ ap (λ c. some (m - c)) (sym (count-tail d ds n before k t))
  ]

  head_last : Member d next → 0 < n
  head_last m =
      let (pos, here) = r.freed d m in ground (arith, pos, here, lookup-head d ds n before)

  next_freed :
      (k : String)
      → Member k next
      → (0 < count k (d ∷ ds)) × (lookup k before ≡ some (count k (d ∷ ds)))
  next_freed k m = elim (str-cases k d) [
    | inl (t, same) ↦
        let (pos, here) = r.freed k m in
        let here' : lookup d (insert d n before) ≡ some (count d ds) =
          subst (λ j. lookup j (insert d n before) ≡ some (count j ds)) same here in
        let eq : n ≡ count d ds = ground (arith, here', lookup-head d ds n before) in
        subst (λ j. (0 < count j (d ∷ ds)) × (lookup j before ≡ some (count j (d ∷ ds)))) (sym same)
          (
            omega (arith, count-head d ds n before),
            has ∙ ap some (omega (arith, eq, count-head d ds n before)),
          )
    | inr t ↦
        let (pos, here) = r.freed k m in
        (
          omega (arith, pos, count-tail d ds n before k t),
          sym (lookup-tail d ds n before k t) ∙ here ∙ ap some (sym (count-tail d ds n before k t)),
        )
  ]

  -- The degree that has become 0 was the number of occurrences.
  head_freed :
      n ≡ 0 → count d ds ≤ n → (0 < count d (d ∷ ds)) × (lookup d before ≡ some (count d (d ∷ ds)))
  head_freed e low = (
    omega (arith, count-head d ds n before),
    has ∙ ap some (omega (arith, e, low, count-head d ds n before)),
  )

  other_frees :
      (k : String)
      → str_eq k d ≡ false
      → 0 < count k (d ∷ ds)
      → lookup k before ≡ some (count k (d ∷ ds))
      → Member k next
  other_frees k t pos old =
      r.frees k (omega (arith, count-tail d ds n before k t, pos))
        (lookup-tail d ds n before k t ∙ old ∙ ap some (count-tail d ds n before k t))

  head_frees : 0 < n → lookup d before ≡ some (count d (d ∷ ds)) → Member d next
  head_frees pos old =
      let eq : n ≡ count d ds = ground (arith, has, old, count-head d ds n before) in
      r.frees d (omega (arith, pos, eq)) (lookup-head d ds n before ∙ ap some eq)

  Releases-cons :
      count d ds ≤ n → Releases (d ∷ ds) before (if n == 0 then d ∷ next else next) after
  Releases-cons low = elim (Bool-cases (n == 0)) [
    | inl e ↦ rw e (record {
      lowers = cons_lowers;
      distinct = ((λ m. omega (arith, head_last m, is_zero e)), r.distinct);
      freed = λ k m. elim m [
        | inl same ↦
            subst (λ j. (0 < count j (d ∷ ds)) × (lookup j before ≡ some (count j (d ∷ ds))))
              (sym same) (head_freed (ground arith) low)
        | inr later ↦ next_freed k later
      ];
      frees = λ k pos old. elim (str-cases k d) [
        | inl (t, same) ↦ inl same
        | inr t ↦ inr (other_frees k t pos old)
      ];
    })
    | inr e ↦ rw e (record {
      lowers = cons_lowers;
      distinct = r.distinct;
      freed = next_freed;
      frees = λ k pos old. elim (str-cases k d) [
        | inl (t, same) ↦
            subst (λ j. Member j next) (sym same)
              (head_frees (ground arith)
                (subst (λ j. lookup j before ≡ some (count j (d ∷ ds))) same old))
        | inr t ↦ other_frees k t pos old
      ];
    })
  ]

pub release_lem :
    (ds : List String) (degrees : Assoc ℕ)
    → Covers ds degrees
    → (next : List String) × (after : Assoc ℕ) × (release ds degrees ≡ some (next, after))
      × Releases ds degrees next after
unfolding release count
release_lem [] degrees c = (
  [],
  degrees,
  refl,
  record {
    lowers = λ k n h. h ∙ ap some (omega arith);
    distinct = tt;
    freed = λ k m. absurd m;
    frees = λ k pos h. absurd (omega arith);
  },
)
release_lem (d ∷ ds) degrees c =
    let (m, has, low) = c d (omega (arith, count-head d ds 0 degrees)) in
    let (n, eq) = positive m (omega (arith, low, count-head d ds 0 degrees)) in
    let has' : lookup d degrees ≡ some (suc n) = has ∙ ap some eq in
    let (next, after, same, r) =
      release_lem ds (insert d n degrees) (Covers-tail d ds n degrees has' c) in
    (
      (if n == 0 then d ∷ next else next),
      after,
      rw (has', release, same) refl,
      Releases-cons d ds n degrees after next has' r
          (omega (arith, low, eq, count-head d ds 0 degrees)),
    )
