-- ===== src/Prelude/Counting.antt =====
-- Counting the entries of a list by taking one out.
pub mod Occurrences
use kuromaku.Prelude.{
  ◌≤◌, String, ◌≡◌, refl, sym, ap, subst, ◌≢◌, inl, inr, List, [], ◌∷◌, ◌++◌, All, Member, Distinct,
  length, length-append, str_eq_refl, str-cases, Member-append_left, Member-append_right,
  Member-append_cases, arith,
}

pub split_at :
    {A : Type 0} (x : A) (xs : List A)
    → Member x xs
    → (pre : List A) × (post : List A) × (xs ≡ pre ++ x ∷ post)
split_at x [] m = absurd m
split_at x (y ∷ ys) (inl same) = ([], ys, ap (λ z. z ∷ ys) (sym same))
split_at x (y ∷ ys) (inr m) = let (pre, post, e) = split_at x ys m in (y ∷ pre, post, ap (◌∷◌ y) e)

pub without :
    {A : Type 0} (k z : A) (pre post : List A)
    → z ≢ k
    → Member z (pre ++ k ∷ post)
    → Member z (pre ++ post)
without k z pre post other m = elim (Member-append_cases z pre (k ∷ post) m) [
  | inl n ↦ Member-append_left z pre post n
  | inr (inl same) ↦ absurd (other same)
  | inr (inr n) ↦ Member-append_right z pre post n
]

pub others :
    (k : String) (ks pre post : List String)
    → ¬ Member k ks
    → All (λ j. Member j (pre ++ k ∷ post)) ks
    → All (λ j. Member j (pre ++ post)) ks
others k [] pre post fresh h = tt
others k (j ∷ ks) pre post fresh h = (
  without k j pre post (λ same. fresh (inl (sym same))) h.0,
  others k ks pre post (λ m. fresh (inr m)) h.1,
)

pub Distinct-length :
    (ks xs : List String) → Distinct ks → All (λ k. Member k xs) ks → length ks ≤ length xs
Distinct-length [] xs d inside = omega arith
Distinct-length (k ∷ ks) xs d inside =
    let (pre, post, e) = split_at k xs inside.0 in
    let rest =
      Distinct-length ks (pre ++ post) d.1
        (others k ks pre post d.0 (subst (λ l. All (λ j. Member j l) ks) e inside.1)) in
    omega (
      arith,
      rest,
      ap (length {A = String}) e,
      length-append pre (k ∷ post),
      length-append pre post,
    )

-- Distinct entries of a list that are no fewer than its entries are all of them.
pub fill :
    (ks xs : List String)
    → Distinct ks
    → All (λ k. Member k xs) ks
    → length xs ≤ length ks
    → (x : String) → Member x xs
    → Member x ks
fill [] [] d inside short x m = absurd m
fill [] (y ∷ ys) d inside short x m = absurd (omega arith)
fill (k ∷ ks) xs d inside short x m =
    let (pre, post, e) = split_at k xs inside.0 in
    let shorter : length (pre ++ post) ≤ length ks = omega (
      arith,
      short,
      ap (length {A = String}) e,
      length-append pre (k ∷ post),
      length-append pre post,
    ) in
    elim (str-cases x k) [
      | inl (t, same) ↦ inl same
      | inr t ↦ inr (
          fill ks (pre ++ post) d.1
            (others k ks pre post d.0 (subst (λ l. All (λ j. Member j l) ks) e inside.1)) shorter x
            (without k x pre post (λ same. cc (str_eq_refl k, t, same)) (subst (Member x) e m)))
    ]
