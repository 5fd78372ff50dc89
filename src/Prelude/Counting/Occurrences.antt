-- ===== src/Prelude/Counting/Occurrences.antt =====
-- How often a text stands in a list, and how many texts of a list are not in a set.
use kuromaku.Prelude.{
  ℕ, suc, ◌+◌, ◌≤◌, ◌<◌, String, ◌≡◌, refl, inl, inr, false, List, [], ◌∷◌, ◌++◌, All, Member,
  contains, contains-Member, Member-contains, str_eq, str_eq_refl, str-cases, length, if◌then◌else◌,
  Bool-cases, arith,
}

-- How many of the texts are not in the set.
unfoldable pub unseen : List String → List String → ℕ
unseen [] visited = 0
unseen (t ∷ ts) visited = if contains t visited then unseen ts visited else suc (unseen ts visited)

pub unseen-cons-le :
    (all visited : List String) (t : String) → unseen all (t ∷ visited) ≤ unseen all visited
unfolding unseen contains
unseen-cons-le [] visited t = omega arith
unseen-cons-le (s ∷ all) visited t = ground (arith, unseen-cons-le all visited t)

pub unseen-cons-lt :
    (all visited : List String) (t : String)
    → Member t all
    → contains t visited ≡ false
    → suc (unseen all (t ∷ visited)) ≤ unseen all visited
unfolding unseen contains
unseen-cons-lt [] visited t m new = absurd m
unseen-cons-lt (s ∷ all) visited t (inl here) new =
    rw (← here, str_eq_refl t, new) (omega (arith, unseen-cons-le all visited t))
unseen-cons-lt (s ∷ all) visited t (inr m) new = ground (arith, unseen-cons-lt all visited t m new)

unfoldable pub count : String → List String → ℕ
count x [] = 0
count x (y ∷ ys) = (if str_eq x y then 1 else 0) + count x ys

pub count-append : (x : String) (ys zs : List String) → count x (ys ++ zs) ≡ count x ys + count x zs
unfolding count
count-append x [] zs = omega arith
count-append x (y ∷ ys) zs = omega (arith, count-append x ys zs)

pub Member-count : (x : String) (ys : List String) → Member x ys → 0 < count x ys
unfolding count
Member-count x [] m = absurd m
Member-count x (y ∷ ys) (inl e) = rw (← e, str_eq_refl x) (omega arith)
Member-count x (y ∷ ys) (inr m) = omega (arith, Member-count x ys m)

pub count-Member : (x : String) (ys : List String) → 0 < count x ys → Member x ys
unfolding count
count-Member x [] h = absurd (omega arith)
count-Member x (y ∷ ys) h = elim (str-cases x y) [
  | inl (t, same) ↦ inl same
  | inr t ↦ let h' : 0 < 0 + count x ys = rw t at h in inr (count-Member x ys (omega arith))
]

pub unseen-none : (ts : List String) → unseen ts [] ≡ length ts
unfolding unseen contains
unseen-none [] = refl
unseen-none (t ∷ ts) = omega (arith, unseen-none ts)

pub unseen-zero : (ts seen : List String) → unseen ts seen ≡ 0 → All (λ t. Member t seen) ts
unfolding unseen
unseen-zero [] seen h = tt
unseen-zero (t ∷ ts) seen h = elim (Bool-cases (contains t seen)) [
  | inl old ↦ (contains-Member t seen old, unseen-zero ts seen (rw old at h))
  | inr new ↦ let h' : suc (unseen ts seen) ≡ 0 = rw new at h in absurd (omega (arith, h'))
]

pub zero-unseen : (ts seen : List String) → All (λ t. Member t seen) ts → unseen ts seen ≡ 0
unfolding unseen
zero-unseen [] seen h = refl
zero-unseen (t ∷ ts) seen h = rw (Member-contains t seen h.0) (zero-unseen ts seen h.1)

-- A text that joins the set takes its occurrences away.
pub unseen-count :
    (x : String) (ts seen : List String)
    → contains x seen ≡ false
    → unseen ts (x ∷ seen) + count x ts ≡ unseen ts seen
unfolding unseen count contains
unseen-count x [] seen new = refl
unseen-count x (t ∷ ts) seen new = elim (str-cases x t) [
  | inl (e, same) ↦ rw (← same, str_eq_refl x, new) (omega (arith, unseen-count x ts seen new))
  | inr e ↦ elim (str-cases t x) [
    | inl (e', same) ↦ absurd (cc (e, same, str_eq_refl x))
    | inr e' ↦ ground (arith, unseen-count x ts seen new)
  ]
]

-- A larger set misses no more.
pub unseen_mono :
    (ts small large : List String)
    → ((k : String) → Member k small → Member k large)
    → unseen ts large ≤ unseen ts small
unfolding unseen
unseen_mono [] small large sub = omega arith
unseen_mono (t ∷ ts) small large sub = elim (Bool-cases (contains t small)) [
  | inl e ↦
      rw (e, Member-contains t large (sub t (contains-Member t small e)))
        (unseen_mono ts small large sub)
  | inr e ↦ rw e (ground (arith, unseen_mono ts small large sub))
]
