-- ===== src/Prelude/Lists.antt =====
-- Lists measured by native numbers, predicates on lists, and maps as association lists.
use Prim.Native.Nat.{ℕ, suc, ◌+◌}
use Prim.Native.String.{String}
use mathlib.Core.Path.{refl, ◌≡◌}
use mathlib.Core.Logic.{◌≢◌, ◌⊎◌, inl, inr}
use mathlib.Core.Bool.{Bool, true, false, ◌||◌}
use mathlib.Core.Option.{Option, none, some}
use mathlib.Core.List.{List, [], ◌∷◌, ◌++◌}
use native.Mathlib.Omega.{arith}
use kuromaku.Prelude.Tests.{str_eq_iff, str_eq, str_eq_refl, str-cases, Bool-cases, if◌then◌else◌}

module _ {ℓ} {A : Type ℓ} where
  abbrev pub length : List A → ℕ
  length [] = 0
  length (x ∷ xs) = suc (length xs)

  abbrev pub is_empty : List A → Bool
  is_empty [] = true
  is_empty (x ∷ xs) = false

  abbrev pub head? : List A → Option A
  head? [] = none
  head? (x ∷ xs) = some x

  -- `P` holds of each element.
  abbrev pub All {κ} : (A → Type κ) → List A → Type κ
  All P [] = Unit
  All P (x ∷ xs) = P x × All P xs

  -- The first element that passes the test.
  unfoldable pub find : (A → Bool) → List A → Option A
  find p [] = none
  find p (x ∷ xs) = if p x then some x else find p xs

-- The types of the program stand in `Type 0`, and so does membership.
module _ {A : Type 0} where
  -- `x` is one of the elements.
  abbrev pub Member : A → List A → Type 0
  Member x [] = ⊥
  Member x (y ∷ ys) = (x ≡ y) ⊎ Member x ys

  -- No element stands twice.
  abbrev pub Distinct : List A → Type 0
  Distinct [] = Unit
  Distinct (x ∷ xs) = (¬ Member x xs) × Distinct xs

module _ {ℓ} {A : Type ℓ} where
  pub length-append : (xs ys : List A) → length (xs ++ ys) ≡ length xs + length ys
  length-append [] ys = omega arith
  length-append (x ∷ xs) ys = omega (arith, length-append xs ys)

  pub List-cases : (xs : List A) → (xs ≡ []) ⊎ ((x : A) × (rest : List A) × (xs ≡ x ∷ rest))
  List-cases [] = inl refl
  List-cases (x ∷ xs) = inr (x, xs, refl)

  pub All-append {κ} : (P : A → Type κ) (xs ys : List A) → All P xs → All P ys → All P (xs ++ ys)
  All-append P [] ys hx hy = hy
  All-append P (x ∷ xs) ys hx hy = (hx.0, All-append P xs ys hx.1 hy)

  pub All-map {κ μ} :
      (P : A → Type κ) (Q : A → Type μ) (xs : List A) → ((x : A) → P x → Q x) → All P xs → All Q xs
  All-map P Q [] f h = tt
  All-map P Q (x ∷ xs) f h = (f x h.0, All-map P Q xs f h.1)

module _ {A : Type 0} where
  pub All-Member {κ} : (P : A → Type κ) (xs : List A) {x : A} → All P xs → Member x xs → P x
  All-Member P [] h m = absurd m
  All-Member P (y ∷ ys) h (inl e) = rw e h.0
  All-Member P (y ∷ ys) h (inr m) = All-Member P ys h.1 m

  pub Member-append_left : (x : A) (xs ys : List A) → Member x xs → Member x (xs ++ ys)
  Member-append_left x (z ∷ xs) ys (inl e) = inl e
  Member-append_left x (z ∷ xs) ys (inr m) = inr (Member-append_left x xs ys m)
  Member-append_left x [] ys m = absurd m

  pub Member-append_right : (x : A) (xs ys : List A) → Member x ys → Member x (xs ++ ys)
  Member-append_right x [] ys m = m
  Member-append_right x (z ∷ xs) ys m = inr (Member-append_right x xs ys m)

  pub Member-append_cases :
      (x : A) (xs ys : List A) → Member x (xs ++ ys) → Member x xs ⊎ Member x ys
  Member-append_cases x [] ys m = inr m
  Member-append_cases x (z ∷ xs) ys (inl e) = inl (inl e)
  Member-append_cases x (z ∷ xs) ys (inr m) = elim (Member-append_cases x xs ys m) [
    | inl left ↦ inl (inr left)
    | inr right ↦ inr right
  ]

module _ {A : Type 0} where
  pub Distinct-append :
      (xs ys : List A)
      → Distinct xs
      → Distinct ys
      → ((x : A) → Member x xs → ¬ Member x ys)
      → Distinct (xs ++ ys)
  Distinct-append [] ys dx dy apart = dy
  Distinct-append (x ∷ xs) ys dx dy apart = (
    (λ m. elim (Member-append_cases x xs ys m) [ inl n ↦ dx.0 n | inr n ↦ apart x (inl refl) n ]),
    Distinct-append xs ys dx.1 dy (λ z m. apart z (inr m)),
  )

-- `HashSet::contains` on a set that is kept as a list.
unfoldable pub contains : String → List String → Bool
contains s [] = false
contains s (t ∷ ts) = str_eq s t || contains s ts

pub contains-Member : (s : String) (ts : List String) → contains s ts ≡ true → Member s ts
unfolding contains
contains-Member s [] h = cc
contains-Member s (t ∷ ts) h = elim (str-cases s t) [
  | inl e ↦ inl e.1
  | inr e ↦ inr (contains-Member s ts (rw e at h))
]

pub Member-contains : (s : String) (ts : List String) → Member s ts → contains s ts ≡ true
unfolding contains
Member-contains s [] m = absurd m
Member-contains s (t ∷ ts) (inl e) = rw (← e, str_eq_refl s)
Member-contains s (t ∷ ts) (inr m) = ground (arith, Member-contains s ts m)

pub not-contains : (s : String) (ts : List String) → contains s ts ≡ false → ¬ Member s ts
not-contains s ts h m = cc (Member-contains s ts m)

-- A map with text keys, as the list of its entries: the first entry with a key counts.
abbrev pub Assoc : Type 0 → Type 0
Assoc V = List (String × V)

module _ {V : Type 0} where
  abbrev pub keys : Assoc V → List String
  keys [] = []
  keys ((k, v) ∷ m) = k ∷ keys m

  unfoldable pub lookup : String → Assoc V → Option V
  lookup k [] = none
  lookup k ((j, v) ∷ m) = if str_eq k j then some v else lookup k m

  -- `HashMap::insert`: an entry with the key gets the new value in its place.
  unfoldable pub insert : String → V → Assoc V → Assoc V
  insert k v [] = (k, v) ∷ []
  insert k v ((j, w) ∷ m) = if str_eq k j then (k, v) ∷ m else (j, w) ∷ insert k v m

  pub lookup-Member : (k : String) (m : Assoc V) {v : V} → lookup k m ≡ some v → Member (k, v) m
  unfolding lookup
  lookup-Member k [] h = cc
  lookup-Member k ((j, w) ∷ m) {v} h = elim (str-cases k j) [
    | inl e ↦ inl (ground (arith, e.1, rw e.0 at h))
    | inr e ↦ inr (lookup-Member k m (rw e at h))
  ]

  pub lookup-insert :
      (k j : String) (v : V) (m : Assoc V)
      → lookup j (insert k v m) ≡ (if str_eq j k then some v else lookup j m)
  unfolding lookup insert
  lookup-insert k j v [] = refl
  lookup-insert k j v ((i, w) ∷ m) =
      ground (
        arith,
        str_eq_iff k j,
        str_eq_iff j k,
        str_eq_iff k i,
        str_eq_iff j i,
        lookup-insert k j v m,
      )

pub find-Member :
    {A : Type 0} (p : A → Bool) (xs : List A) {x : A}
    → find p xs ≡ some x
    → Member x xs × (p x ≡ true)
unfolding find
find-Member p [] h = cc
find-Member p (y ∷ ys) {x} h = elim (Bool-cases (p y)) [
  | inl e ↦ (inl (ground arith), ground arith)
  | inr e ↦ let (m, t) = find-Member p ys (rw e at h) in (inr m, t)
]

pub find-hit :
    {A : Type 0} (p : A → Bool) (x : A) (xs : List A) → Member x xs → p x ≡ true → find p xs ≢ none
unfolding find
find-hit p x [] m hit = absurd m
find-hit p x (y ∷ ys) m hit = elim (Bool-cases (p y)) [
  | inl e ↦ λ lost. cc (rw e at lost)
  | inr e ↦ elim m [ inl same ↦ λ lost. cc (e, hit, same) | inr n ↦ rw e (find-hit p x ys n hit) ]
]
