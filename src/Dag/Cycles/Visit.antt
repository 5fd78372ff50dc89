-- ===== src/Dag/Cycles/Visit.antt =====
-- A visit of a node, the loop over its needs, and the loop over the steps.
use kuromaku.Prelude.{
  ℕ, ◌<◌, String, ◌≡◌, ◌↔◌, refl, sym, ap, subst, ◌∙◌, ◌⊎◌, inl, inr, true, false, Option, List, [],
  ◌∷◌, ◌++◌, All, Member, Member-append_right, Member-append_left, Member-append_cases, Distinct,
  Distinct-append, contains, contains-Member, not-contains, Bool-cases, arith,
}
use kuromaku.Prelude.Counting.Occurrences.{unseen, unseen_mono}
use kuromaku.Config.{Step}
use kuromaku.Dag.{ids, Search, Found, enter, leave, drop_last, remove, explore}
use kuromaku.Dag.Spec.{Needs, Chain}
use kuromaku.Dag.Path.{drop_last-append, remove_head, Chain-append, close_cycle_lem}
use kuromaku.Dag.Cycles.{
  after, Member-after, after-append, ids-append, Ordered-append, IsSound, Clears, Ends, Clears-none,
  Clears-append, IsSound-Clears,
}

module _ (steps : List Step) where
  -- What a visit of a node that is new promises, where `fuel` exceeds the nodes that are not visited.
  abbrev pub Visits : (String → Search → Option Found) → ℕ → Type 0
  Visits visit fuel =
      (node : String) (through : List String) (s : Search)
      → Member node (ids steps)
      → ¬ Member node s.visited
      → IsSound steps through s
      → Chain steps (s.path ++ node ∷ [])
      → unseen (ids steps) s.visited < fuel
      → Ends steps through s (λ added. Member node (after through added)) (visit node s)

  abbrev pub AllThrough : List String → List String → List Step → Type 0
  AllThrough through ds added = All (λ d. Member d (after through added)) ds

  pub unseen-Clears :
      (through : List String) (s s1 : Search) (xs : List Step) (fuel : ℕ)
      → Clears steps through s s1 xs
      → unseen (ids steps) s.visited < fuel
      → unseen (ids steps) s1.visited < fuel
  unseen-Clears through s s1 xs fuel cl low =
      omega (arith, unseen_mono (ids steps) s.visited s1.visited (λ k m. (cl.visited k).1 (inl m)))

  -- A need that is visited now, and those behind it.
  pub after_visit :
      (d : String) (ds through : List String) (s s1 : Search) (xs : List Step) (r : Option Found)
      → Clears steps through s s1 xs
      → Member d (after through xs)
      → Ends steps (after through xs) s1 (AllThrough (after through xs) ds) r
      → Ends steps through s (AllThrough through (d ∷ ds)) r
  after_visit d ds through s s1 xs r cl got (inl bad) = inl bad
  after_visit d ds through s s1 xs r cl got (inr (s2, ys, same, cl2, all)) = inr (
    s2,
    xs ++ ys,
    same,
    Clears-append steps through s s1 s2 xs ys cl cl2,
    subst (λ w. All (λ j. Member j w) (d ∷ ds)) (sym (after-append through xs ys))
        (Member-after d (after through xs) ys (inl got), all),
  )

  pub after_skip :
      (d : String) (ds through : List String) (s : Search) (r : Option Found)
      → Member d through
      → Ends steps through s (AllThrough through ds) r
      → Ends steps through s (AllThrough through (d ∷ ds)) r
  after_skip d ds through s r done (inl bad) = inl bad
  after_skip d ds through s r done (inr (s2, ys, same, cl, all)) =
      inr (s2, ys, same, cl, (Member-after d through ys (inl done), all))

  pub through_off :
      (d : String) (through : List String) (s : Search)
      → IsSound steps through s
      → contains d s.visited ≡ true
      → contains d s.in_stack ≡ false
      → Member d through
  through_off d through s v old off = elim (v.seen d (contains-Member d s.visited old)) [
    | inl st ↦ absurd (not-contains d s.in_stack off st)
    | inr thr ↦ thr
  ]

  pub explore-Ends :
      (visit : String → Search → Option Found) (fuel : ℕ)
      → Visits visit fuel
      → (deps : List String) (node : String) (above through : List String) (s : Search)
      → All (λ d. Member d (ids steps) × Needs steps node d) deps
      → s.path ≡ above ++ node ∷ []
      → IsSound steps through s
      → Chain steps s.path
      → unseen (ids steps) s.visited < fuel
      → Ends steps through s (AllThrough through deps) (explore visit deps s)
  unfolding explore
  explore-Ends visit fuel good [] node above through s need here v c low =
      inr (s, [], refl, Clears-none steps through s, tt)
  explore-Ends visit fuel good (d ∷ ds) node above through s need here v c low =
      let longer : Chain steps (s.path ++ d ∷ []) =
        subst (λ p. Chain steps (p ++ d ∷ [])) (sym here)
          (Chain-append steps above node d (subst (Chain steps) here c) need.0.1) in
      elim (Bool-cases (contains d s.visited)) [
        | inl old ↦ elim (Bool-cases (contains d s.in_stack)) [
          | inl back ↦
              let on_path = v.stacked d (contains-Member d s.in_stack back) in
              let (text, same, names) = close_cycle_lem steps d s.path on_path longer in
              inl (text, rw (explore, old, back) same, names)
          | inr off ↦
              rw (explore, old, off)
                (after_skip d ds through s (explore visit ds s) (through_off d through s v old off)
                  (explore-Ends visit fuel good ds node above through s need.1 here v c low))
        ]
        | inr new ↦ elim (good d through s need.0.0 (not-contains d s.visited new) v longer low) [
          | inl (text, same, names) ↦ inl (text, rw (explore, new, same) refl, names)
          | inr (s1, xs, same, cl, got) ↦
              rw (explore, new, same)
                (after_visit d ds through s s1 xs (explore visit ds s1) cl got (
                  explore-Ends visit fuel good ds node above (after through xs) s1 need.1
                    (cl.path ∙ here) (IsSound-Clears steps through s s1 xs cl v)
                    (subst (Chain steps) (sym cl.path) c)
                    (unseen-Clears through s s1 xs fuel cl low)))
        ]
      ]

  pub IsSound-enter :
      (node : String) (through : List String) (s : Search)
      → IsSound steps through s
      → IsSound steps through (enter node s)
  unfolding enter
  IsSound-enter node through s v = record {
    seen = λ k m. elim m [
      | inl e ↦ inl (inl e)
      | inr old ↦ elim (v.seen k old) [ inl st ↦ inl (inr st) | inr thr ↦ inr thr ]
    ];
    stacked = λ k m. elim m [
      | inl e ↦ Member-append_right k s.path (node ∷ []) (inl e)
      | inr old ↦ Member-append_left k s.path (node ∷ []) (v.stacked k old)
    ];
    marked = λ k m. elim m [ inl e ↦ inl e | inr old ↦ inr (v.marked k old) ];
  }

  -- The ids of the steps that are added, and the one behind them.
  ids-left :
      (added : List Step) (t : Step) (k : String)
      → Member k (ids (added ++ t ∷ [])) ↔ (Member k (ids added) ⊎ (k ≡ t.id))
  ids-left added t k =
      subst (λ l. Member k l ↔ (Member k (ids added) ⊎ (k ≡ t.id)))
        (sym (ids-append added (t ∷ [])))
        (
          (λ w. elim (Member-append_cases k (ids added) (t.id ∷ []) w) [
            | inl x ↦ inl x
            | inr (inl e) ↦ inr e
            | inr (inr bad) ↦ absurd bad
          ]),
          (λ w. elim w [
            | inl x ↦ Member-append_left k (ids added) (t.id ∷ []) x
            | inr e ↦ Member-append_right k (ids added) (t.id ∷ []) (inl e)
          ]),
        )

  pub Clears-leave :
      (t : Step) (through : List String) (s s' : Search) (added : List Step)
      → Member t steps
      → ¬ Member t.id s.visited
      → IsSound steps through s
      → All (λ d. Member d (after through added)) t.needs
      → Clears steps through (enter t.id s) s' added
      → Clears steps through s (leave t.id s') (added ++ t ∷ [])
  unfolding enter leave
  Clears-leave t through s s' added m new v all c =
      let both = λ (k : String). ids-left added t k in
      record {
        path = ap drop_last c.path ∙ drop_last-append s.path t.id;
        stack =
            ap (remove t.id) c.stack ∙ remove_head t.id s.in_stack (λ st. new (v.marked t.id st));
        visited = λ k. (
          (λ n. elim ((c.visited k).0 n) [
            | inl (inl e) ↦ inr ((both k).1 (inr e))
            | inl (inr old) ↦ inl old
            | inr x ↦ inr ((both k).1 (inl x))
          ]),
          (λ w. elim w [
            | inl old ↦ (c.visited k).1 (inl (inr old))
            | inr n ↦ elim ((both k).0 n) [
              | inl x ↦ (c.visited k).1 (inr x)
              | inr e ↦ (c.visited k).1 (inl (inl e))
            ]
          ]),
        );
        ordered = Ordered-append through added (t ∷ []) c.ordered (all, tt);
        once = subst Distinct (sym (ids-append added (t ∷ []))) (
            Distinct-append (ids added) (t.id ∷ []) c.once ((λ bad. bad), tt)
              (λ k x w. elim w [ inl e ↦ c.fresh k x (inl e) | inr bad ↦ bad ]));
        fresh = λ k n old. elim ((both k).0 n) [
          | inl x ↦ c.fresh k x (inr old)
          | inr e ↦ new (subst (λ j. Member j s.visited) e old)
        ];
        inside = λ u n. elim (Member-append_cases u added (t ∷ []) n) [
          | inl x ↦ c.inside u x
          | inr (inl e) ↦ subst (λ x. Member x steps) (sym e) m
          | inr (inr bad) ↦ absurd bad
        ];
      }
