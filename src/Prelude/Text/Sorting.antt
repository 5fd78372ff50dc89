-- ===== src/Prelude/Text/Sorting.antt =====
-- Sorting texts keeps the elements.
use Prim.Native.String.{String}
use mathlib.Core.Path.{◌≡◌, sym}
use mathlib.Core.Logic.{◌⊎◌, inl, inr, ◌↔◌}
use mathlib.Core.List.{List, [], ◌∷◌}
use kuromaku.Prelude.Tests.{Bool-cases}
use kuromaku.Prelude.Lists.{Member, Distinct}
use kuromaku.Prelude.Text.{text_le, insert_sorted, sort}

Member-insert_sorted :
    (x y : String) (ys : List String) → Member x (insert_sorted y ys) → (x ≡ y) ⊎ Member x ys
unfolding insert_sorted
Member-insert_sorted x y [] m = m
Member-insert_sorted x y (z ∷ zs) m = elim (Bool-cases (text_le y z)) [
  | inl e ↦ rw e at m
  | inr e ↦ elim (let m' : (x ≡ z) ⊎ Member x (insert_sorted y zs) = rw e at m in m') [
    | inl same ↦ inr (inl same)
    | inr later ↦ elim (Member-insert_sorted x y zs later) [
      | inl new ↦ inl new
      | inr old ↦ inr (inr old)
    ]
  ]
]

insert_sorted-Member :
    (x y : String) (ys : List String) → (x ≡ y) ⊎ Member x ys → Member x (insert_sorted y ys)
unfolding insert_sorted
insert_sorted-Member x y [] m = m
insert_sorted-Member x y (z ∷ zs) m = elim (Bool-cases (text_le y z)) [
  | inl e ↦ rw e m
  | inr e ↦ rw e (elim m [
    | inl new ↦ inr (insert_sorted-Member x y zs (inl new))
    | inr (inl same) ↦ inl same
    | inr (inr old) ↦ inr (insert_sorted-Member x y zs (inr old))
  ])
]

sort-Member : (x : String) (xs : List String) → Member x xs → Member x (sort xs)
unfolding sort
sort-Member x [] m = m
sort-Member x (y ∷ ys) (inl e) = insert_sorted-Member x y (sort ys) (inl e)
sort-Member x (y ∷ ys) (inr m) = insert_sorted-Member x y (sort ys) (inr (sort-Member x ys m))

Member-sort : (x : String) (xs : List String) → Member x (sort xs) → Member x xs
unfolding sort
Member-sort x [] m = m
Member-sort x (y ∷ ys) m = elim (Member-insert_sorted x y (sort ys) m) [
  | inl e ↦ inl e
  | inr old ↦ inr (Member-sort x ys old)
]

pub Member-sort_iff : (x : String) (xs : List String) → Member x (sort xs) ↔ Member x xs
Member-sort_iff x xs = (Member-sort x xs, sort-Member x xs)

insert_sorted-Distinct :
    (x : String) (ys : List String) → ¬ Member x ys → Distinct ys → Distinct (insert_sorted x ys)
unfolding insert_sorted
insert_sorted-Distinct x [] h d = (h, d)
insert_sorted-Distinct x (y ∷ ys) h d = elim (Bool-cases (text_le x y)) [
  | inl e ↦ rw e (h, d)
  | inr e ↦ rw e (
    (λ m. elim (Member-insert_sorted y x ys m) [
      | inl same ↦ h (inl (sym same))
      | inr old ↦ d.0 old
    ]),
    insert_sorted-Distinct x ys (λ m. h (inr m)) d.1,
  )
]

pub sort-Distinct : (xs : List String) → Distinct xs → Distinct (sort xs)
unfolding sort
sort-Distinct [] d = d
sort-Distinct (x ∷ xs) d =
    insert_sorted-Distinct x (sort xs) (λ m. d.0 (Member-sort x xs m)) (sort-Distinct xs d.1)
