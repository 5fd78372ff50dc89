-- ===== src/Dag/Cycles.antt =====
-- The depth-first search: a text that it finds names a cycle, and where it finds none the nodes end
-- in an order in which the steps can run.
pub mod Visit
pub mod Whole
use kuromaku.Prelude.{
  String, ◌≡◌, ◌↔◌, refl, sym, ap, subst, ◌∙◌, ◌⊎◌, inl, inr, Option, some, List, [], ◌∷◌, ◌++◌,
  All, All-map, Member, Member-append_cases, Member-append_left, Member-append_right, Distinct,
  Distinct-append,
}
use kuromaku.Config.{Step}
use kuromaku.Dag.{ids, Search, Found, found, clear}
use kuromaku.Dag.Spec.{Ordered, Chain, NamesCycle}

-- The ids that are through after the steps, the last in front.
abbrev pub after : List String → List Step → List String
after through [] = through
after through (s ∷ ss) = after (s.id ∷ through) ss

pub after-Member :
    (k : String) (through : List String) (ss : List Step)
    → Member k (after through ss)
    → Member k through ⊎ Member k (ids ss)
after-Member k through [] m = inl m
after-Member k through (s ∷ ss) m = elim (after-Member k (s.id ∷ through) ss m) [
  | inl (inl e) ↦ inr (inl e)
  | inl (inr old) ↦ inl old
  | inr later ↦ inr (inr later)
]

pub Member-after :
    (k : String) (through : List String) (ss : List Step)
    → Member k through ⊎ Member k (ids ss)
    → Member k (after through ss)
Member-after k through [] (inl m) = m
Member-after k through [] (inr m) = absurd m
Member-after k through (s ∷ ss) (inl m) = Member-after k (s.id ∷ through) ss (inl (inr m))
Member-after k through (s ∷ ss) (inr (inl e)) = Member-after k (s.id ∷ through) ss (inl (inl e))
Member-after k through (s ∷ ss) (inr (inr m)) = Member-after k (s.id ∷ through) ss (inr m)

pub after-append :
    (through : List String) (xs ys : List Step)
    → after through (xs ++ ys) ≡ after (after through xs) ys
after-append through [] ys = refl
after-append through (x ∷ xs) ys = after-append (x.id ∷ through) xs ys

pub ids-append : (xs ys : List Step) → ids (xs ++ ys) ≡ ids xs ++ ids ys
ids-append [] ys = refl
ids-append (x ∷ xs) ys = ap (◌∷◌ x.id) (ids-append xs ys)

pub Ordered-append :
    (through : List String) (xs ys : List Step)
    → Ordered through xs
    → Ordered (after through xs) ys
    → Ordered through (xs ++ ys)
Ordered-append through [] ys a b = b
Ordered-append through (x ∷ xs) ys a b = (a.0, Ordered-append (x.id ∷ through) xs ys a.1 b)

module _ (steps : List Step) where
  -- `through` are the nodes that the search has left.
  pub record IsSound (through : List String) (s : Search) : Type 0 where
    pub seen : (k : String) → Member k s.visited → Member k s.in_stack ⊎ Member k through
    pub stacked : (k : String) → Member k s.in_stack → Member k s.path
    pub marked : (k : String) → Member k s.in_stack → Member k s.visited

  -- The search has left the nodes of `added`, and is back where it was.
  pub record Clears (through : List String) (before after_it : Search) (added : List Step)
      : Type 0 where
    pub path : after_it.path ≡ before.path
    pub stack : after_it.in_stack ≡ before.in_stack
    pub visited :
        (k : String) → Member k after_it.visited ↔ (Member k before.visited ⊎ Member k (ids added))
    pub ordered : Ordered through added
    pub once : Distinct (ids added)
    pub fresh : (k : String) → Member k (ids added) → ¬ Member k before.visited
    pub inside : (t : Step) → Member t added → Member t steps

  -- A cycle's name, or the state of a search without one, with `P` of the nodes that it has left.
  abbrev pub Ends : List String → Search → (List Step → Type 0) → Option Found → Type 0
  Ends through s P r =
      ((text : String) × (r ≡ some (found text)) × NamesCycle steps text)
      ⊎ ((s' : Search) × (added : List Step) × (r ≡ some (clear s'))
          × Clears through s s' added
          × P added)

  pub Clears-none : (through : List String) (s : Search) → Clears through s s []
  Clears-none through s = record {
    path = refl;
    stack = refl;
    visited = λ k. (inl, λ w. elim w [ inl m ↦ m | inr bad ↦ absurd bad ]);
    ordered = tt;
    once = tt;
    fresh = λ k m. absurd m;
    inside = λ t m. absurd m;
  }

  pub Clears-append :
      (through : List String) (s s1 s2 : Search) (xs ys : List Step)
      → Clears through s s1 xs
      → Clears (after through xs) s1 s2 ys
      → Clears through s s2 (xs ++ ys)
  Clears-append through s s1 s2 xs ys a b = record {
    path = b.path ∙ a.path;
    stack = b.stack ∙ a.stack;
    visited = λ k. (
      (λ m. elim ((b.visited k).0 m) [
        | inl m1 ↦ elim ((a.visited k).0 m1) [
          | inl m0 ↦ inl m0
          | inr x ↦
              inr (
                subst (Member k) (sym (ids-append xs ys))
                  (Member-append_left k (ids xs) (ids ys) x))
        ]
        | inr y ↦
            inr (
              subst (Member k) (sym (ids-append xs ys)) (Member-append_right k (ids xs) (ids ys) y))
      ]),
      (λ w. elim w [
        | inl m0 ↦ (b.visited k).1 (inl ((a.visited k).1 (inl m0)))
        | inr n ↦
            elim (Member-append_cases k (ids xs) (ids ys) (subst (Member k) (ids-append xs ys) n)) [
              | inl x ↦ (b.visited k).1 (inl ((a.visited k).1 (inr x)))
              | inr y ↦ (b.visited k).1 (inr y)
            ]
      ]),
    );
    ordered = Ordered-append through xs ys a.ordered b.ordered;
    once = subst Distinct (sym (ids-append xs ys)) (
        Distinct-append (ids xs) (ids ys) a.once b.once
          (λ k x y. b.fresh k y ((a.visited k).1 (inr x))));
    fresh = λ k n m.
        elim (Member-append_cases k (ids xs) (ids ys) (subst (Member k) (ids-append xs ys) n)) [
          | inl x ↦ a.fresh k x m
          | inr y ↦ b.fresh k y ((a.visited k).1 (inl m))
        ];
    inside =
        λ t m. elim (Member-append_cases t xs ys m) [ inl x ↦ a.inside t x | inr y ↦ b.inside t y ];
  }

  pub IsSound-Clears :
      (through : List String) (s s' : Search) (added : List Step)
      → Clears through s s' added
      → IsSound through s
      → IsSound (after through added) s'
  IsSound-Clears through s s' added c v = record {
    seen = λ k m. elim ((c.visited k).0 m) [
      | inl old ↦ elim (v.seen k old) [
        | inl st ↦ inl (subst (Member k) (sym c.stack) st)
        | inr thr ↦ inr (Member-after k through added (inl thr))
      ]
      | inr new ↦ inr (Member-after k through added (inr new))
    ];
    stacked = λ k m. subst (Member k) (sym c.path) (v.stacked k (subst (Member k) c.stack m));
    marked = λ k m. (c.visited k).1 (inl (v.marked k (subst (Member k) c.stack m)));
  }
