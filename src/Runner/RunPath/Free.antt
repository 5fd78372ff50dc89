-- ===== src/Runner/RunPath/Free.antt =====
-- The search for a name ends, and the name is free.
use kuromaku.Prelude.{
  ℕ, zero, suc, ◌+◌, ◌≤◌, String, ◌≡◌, refl, ◌⊎◌, inl, inr, some, List, [], ◌∷◌, length, All,
  Member, Distinct, contains, contains-Member, not-contains, Bool-cases, arith,
}
use kuromaku.Prelude.Counting.{Distinct-length}
use kuromaku.Prelude.Text.{◌<>◌}
use kuromaku.Prelude.Number.{show}
use kuromaku.Prelude.Number.Reading.{show-injective}
use text.Mathlib.TextLemmas.{append_cancel_left}
use kuromaku.Runner.RunPath.{candidate, free_candidate, unique_run_path}

candidate_injective : (base : String) (m n : ℕ) → candidate base m ≡ candidate base n → m ≡ n
candidate_injective base m n h = show-injective m n (
    append_cancel_left "-" (show m) (show n)
      (append_cancel_left base ("-" <> show m) ("-" <> show n) h))

abbrev candidates : String → ℕ → (count : ℕ) → List String
candidates base n zero = []
candidates base n (suc k) = candidate base n ∷ candidates base (n + 1) k

candidates_from :
    (base x : String) (n k : ℕ)
    → Member x (candidates base n k)
    → (m : ℕ) × (n ≤ m) × (x ≡ candidate base m)
candidates_from base x n zero h = absurd h
candidates_from base x n (suc k) (inl e) = (n, omega arith, e)
candidates_from base x n (suc k) (inr h) =
    let (m, low, e) = candidates_from base x (n + 1) k h in (m, omega arith, e)

candidates-Distinct : (base : String) (n k : ℕ) → Distinct (candidates base n k)
candidates-Distinct base n zero = tt
candidates-Distinct base n (suc k) = (
  (λ h.
      let (m, low, e) = candidates_from base (candidate base n) (n + 1) k h in
      let same = candidate_injective base n m e in omega (arith, low, same)),
  candidates-Distinct base (n + 1) k,
)

length-candidates : (base : String) (n k : ℕ) → length (candidates base n k) ≡ k
length-candidates base n zero = refl
length-candidates base n (suc k) = omega (arith, length-candidates base (n + 1) k)

-- A name that is not taken: the base, or the base with a number that is counted from 2.
abbrev pub IsFree : List String → String → String → Type 0
IsFree existing base name =
    (¬ Member name existing) × ((name ≡ base) ⊎ ((n : ℕ) × (2 ≤ n) × (name ≡ candidate base n)))

free_candidate-cases :
    (existing : List String) (base : String) (n fuel : ℕ)
    → 2 ≤ n
    → ((name : String) × (free_candidate existing base n fuel ≡ some name)
        × IsFree existing base name)
      ⊎ All (λ x. Member x existing) (candidates base n fuel)
unfolding free_candidate
free_candidate-cases existing base n zero low = inr tt
free_candidate-cases existing base n (suc fuel) low =
    elim (Bool-cases (contains (candidate base n) existing)) [
      | inr free ↦ inl (
        candidate base n,
        rw (free_candidate, free) refl,
        (not-contains (candidate base n) existing free, inr (n, low, refl)),
      )
      | inl taken ↦ elim (free_candidate-cases existing base (n + 1) fuel (omega arith)) [
        | inl (name, found, ok) ↦ inl (name, rw (free_candidate, taken) found, ok)
        | inr all ↦ inr (contains-Member (candidate base n) existing taken, all)
      ]
    ]

-- `unique_run_path` always returns, within one more round than there are names, and the name that it
-- returns is not taken. It is the base where that is free, and else the base with `-2`, `-3`, ….
pub unique_run_path-IsFree :
    (existing : List String) (base : String)
    → (name : String) × (unique_run_path existing base ≡ some name) × IsFree existing base name
unfolding unique_run_path
unique_run_path-IsFree existing base = elim (Bool-cases (contains base existing)) [
  | inr free ↦ (base, rw (unique_run_path, free) refl, (not-contains base existing free, inl refl))
  | inl taken ↦ elim (free_candidate-cases existing base 2 (suc (length existing)) (omega arith)) [
    | inl (name, found, ok) ↦ (name, rw (unique_run_path, taken) found, ok)
    | inr all ↦
        let count = length-candidates base 2 (suc (length existing)) in
        let most =
          Distinct-length (candidates base 2 (suc (length existing))) existing
            (candidates-Distinct base 2 (suc (length existing))) all in
        absurd (omega (arith, count, most))
  ]
]
