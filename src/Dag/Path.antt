-- ===== src/Dag/Path.antt =====
-- The path of the depth-first search, and the cycle that it closes.
use kuromaku.Prelude.{
  String, ◌≡◌, refl, ap, subst, ◌∙◌, inl, inr, some, List, [], ◌∷◌, ◌++◌, append_assoc, Member,
  str_eq_refl, str-cases,
}
use kuromaku.Prelude.Text.{join}
use kuromaku.Config.{Step}
use kuromaku.Dag.{found, drop_last, remove, from_first, close_cycle}
use kuromaku.Dag.Spec.{Needs, Chain, NamesCycle}

pub drop_last-append : (xs : List String) (x : String) → drop_last (xs ++ x ∷ []) ≡ xs
unfolding drop_last
drop_last-append [] x = refl
drop_last-append (y ∷ []) x = refl
drop_last-append (y ∷ z ∷ zs) x = ap (◌∷◌ y) (drop_last-append (z ∷ zs) x)

pub remove_other : (x : String) (ys : List String) → ¬ Member x ys → remove x ys ≡ ys
unfolding remove
remove_other x [] h = refl
remove_other x (y ∷ ys) h = elim (str-cases x y) [
  | inl e ↦ absurd (h (inl e.1))
  | inr e ↦ rw e (ap (◌∷◌ y) (remove_other x ys (λ m. h (inr m))))
]

pub remove_head : (x : String) (ys : List String) → ¬ Member x ys → remove x (x ∷ ys) ≡ ys
unfolding remove
remove_head x ys h = rw (str_eq_refl x) (remove_other x ys h)

from_first_lem :
    (x : String) (path : List String)
    → Member x path
    → (before : List String) × (behind : List String) × (from_first x path ≡ some (x ∷ behind))
      × (path ≡ before ++ x ∷ behind)
unfolding from_first
from_first_lem x [] m = absurd m
from_first_lem x (y ∷ ys) m = elim (str-cases y x) [
  | inl (t, same) ↦
      ([], ys, rw (t, from_first) (ap (λ z. some (z ∷ ys)) same), ap (λ z. z ∷ ys) same)
  | inr t ↦ elim m [
    | inl same ↦ absurd (cc (t, same, str_eq_refl x))
    | inr n ↦
        let (before, behind, found_it, split) = from_first_lem x ys n in
        (y ∷ before, behind, rw (t, from_first) found_it, ap (◌∷◌ y) split)
  ]
]

module _ (steps : List Step) where
  Chain-behind : (before ys : List String) → Chain steps (before ++ ys) → Chain steps ys
  Chain-behind [] ys c = c
  Chain-behind (x ∷ []) [] c = tt
  Chain-behind (x ∷ []) (y ∷ ys) c = c.1
  Chain-behind (x ∷ z ∷ zs) ys c = Chain-behind (z ∷ zs) ys c.1

  pub Chain-append :
      (xs : List String) (a b : String)
      → Chain steps (xs ++ a ∷ [])
      → Needs steps a b
      → Chain steps ((xs ++ a ∷ []) ++ b ∷ [])
  Chain-append [] a b c n = (n, tt)
  Chain-append (x ∷ []) a b c n = (c.0, (n, tt))
  Chain-append (x ∷ y ∷ ys) a b c n = (c.0, Chain-append (y ∷ ys) a b c.1 n)

  pub close_cycle_lem :
      (dep : String) (path : List String)
      → Member dep path
      → Chain steps (path ++ dep ∷ [])
      → (text : String) × (close_cycle dep path ≡ some (found text)) × NamesCycle steps text
  unfolding close_cycle
  close_cycle_lem dep path m c =
      let (before, behind, found_it, split) = from_first_lem dep path m in
      let way = dep ∷ (behind ++ dep ∷ []) in
      (
        join " -> " way,
        rw (found_it, close_cycle) refl,
        (
          way,
          refl,
          record {
            at = dep;
            between = behind;
            closed = refl;
            chain = Chain-behind before way (
                subst (Chain steps)
                  (ap (λ p. p ++ dep ∷ []) split ∙ append_assoc before (dep ∷ behind) (dep ∷ []))
                  c);
          },
        ),
      )
