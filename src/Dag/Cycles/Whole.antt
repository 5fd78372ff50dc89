-- ===== src/Dag/Cycles/Whole.antt =====
-- `dfs_find_cycle` keeps what a visit promises, and so does the loop of `find_cycle`.
use kuromaku.Prelude.{
  ℕ, zero, suc, ◌<◌, String, ◌≡◌, refl, sym, subst, ◌∙◌, ◌⊎◌, inl, inr, false, some, List, [], ◌∷◌,
  ◌++◌, All, All-Member, Member, Distinct, length, Assoc, contains, contains-Member, not-contains,
  Bool-cases, arith,
}
use kuromaku.Prelude.Counting.Occurrences.{unseen, unseen-cons-lt, unseen-none}
use kuromaku.Config.{Step}
use kuromaku.Dag.{
  ids, collect, texts_at, Search, enter, leave, dfs_find_cycle, search_steps, find_cycle,
  blank_search,
}
use kuromaku.Dag.Collect.{Member-ids, ids-Member, lookup-collect, length-ids}
use kuromaku.Dag.Spec.{Needs, Ordered, Chain, NamesCycle}
use kuromaku.Dag.Cycles.{
  after, after-Member, after-append, IsSound, Ends, Clears-none, IsSound-Clears,
}
use kuromaku.Dag.Cycles.Visit.{
  Visits, AllThrough, unseen-Clears, after_visit, after_skip, explore-Ends, IsSound-enter,
  Clears-leave,
}

-- Each step's needs are ids of steps.
abbrev pub AllKnown : List Step → Type 0
AllKnown steps = (s : Step) → Member s steps → All (λ d. Member d (ids steps)) s.needs

module _ (steps : List Step) (distinct : Distinct (ids steps)) (known : AllKnown steps) where
  abbrev graph : Assoc (List String)
  graph = collect (λ s. s.needs) steps []

  texts_at-graph : (t : Step) → Member t steps → texts_at t.id graph ≡ t.needs
  unfolding texts_at
  texts_at-graph t m = rw (lookup-collect (λ s. s.needs) t steps [] distinct m, texts_at) refl

  needs_of :
      (t : Step)
      → Member t steps
      → (ds : List String) → ((d : String) → Member d ds → Member d t.needs)
      → All (λ d. Member d (ids steps)) ds
      → All (λ d. Member d (ids steps) × Needs steps t.id d) ds
  needs_of t m [] sub all = tt
  needs_of t m (d ∷ ds) sub all =
      ((all.0, (t, m, refl, sub d (inl refl))), needs_of t m ds (λ k n. sub k (inr n)) all.1)

  dfs-Visits_known :
      (fuel : ℕ) (t : Step) (through : List String) (s : Search)
      → Member t steps
      → ¬ Member t.id s.visited
      → IsSound steps through s
      → Chain steps (s.path ++ t.id ∷ [])
      → unseen (ids steps) s.visited < suc fuel
      → Visits steps (dfs_find_cycle graph fuel) fuel
      → Ends steps through s
          (λ added. Member t.id (after through added))
          (dfs_find_cycle graph (suc fuel) t.id s)
  unfolding dfs_find_cycle enter
  dfs-Visits_known fuel t through s m new v c low inner =
      let fresh : contains t.id s.visited ≡ false = elim (Bool-cases (contains t.id s.visited)) [
        | inl e ↦ absurd (new (contains-Member t.id s.visited e))
        | inr e ↦ e
      ] in
      let less = unseen-cons-lt (ids steps) s.visited t.id (Member-ids t steps m) fresh in
      let result =
        explore-Ends steps (dfs_find_cycle graph fuel) fuel inner t.needs t.id s.path through
          (enter t.id s) (needs_of t m t.needs (λ k n. n) (known t m)) refl
          (IsSound-enter steps t.id through s v) c (omega (arith, less)) in
      elim result [
        | inl (text, same, names) ↦
            inl (text, rw (texts_at-graph t m, dfs_find_cycle, same) refl, names)
        | inr (s', added, same, cl, all) ↦ inr (
          leave t.id s',
          added ++ t ∷ [],
          rw (texts_at-graph t m, dfs_find_cycle, same) refl,
          Clears-leave steps t through s s' added m new v all cl,
          subst (Member t.id) (sym (after-append through added (t ∷ []))) (inl refl),
        )
      ]

  dfs-Visits : (fuel : ℕ) → Visits steps (dfs_find_cycle graph fuel) fuel
  dfs-Visits zero node through s m new v c low = absurd (omega arith)
  dfs-Visits (suc fuel) node through s m new v c low =
      let (t, inside, same) = ids-Member node steps m in
      subst
        (λ k.
          Ends steps through s (λ added. Member k (after through added))
            (dfs_find_cycle graph (suc fuel) k s))
        same
        (dfs-Visits_known fuel t through s inside (subst (λ k. ¬ Member k s.visited) (sym same) new)
          v (subst (λ k. Chain steps (s.path ++ k ∷ [])) (sym same) c) low (dfs-Visits fuel))

  search-Ends :
      (fuel : ℕ) (ss : List Step) (through : List String) (s : Search)
      → All (λ t. Member t steps) ss
      → s.path ≡ []
      → s.in_stack ≡ []
      → IsSound steps through s
      → unseen (ids steps) s.visited < fuel
      → Ends steps through s (AllThrough steps through (ids ss)) (search_steps graph fuel ss s)
  unfolding search_steps
  search-Ends fuel [] through s inside nowhere idle v low =
      inr (s, [], refl, Clears-none steps through s, tt)
  search-Ends fuel (t ∷ ts) through s inside nowhere idle v low =
      elim (Bool-cases (contains t.id s.visited)) [
        | inl old ↦
            let done : Member t.id through =
              elim (v.seen t.id (contains-Member t.id s.visited old)) [
                | inl st ↦ absurd (subst (Member t.id) idle st)
                | inr thr ↦ thr
              ] in
            rw (search_steps, old)
              (after_skip steps t.id (ids ts) through s (search_steps graph fuel ts s) done
                (search-Ends fuel ts through s inside.1 nowhere idle v low))
        | inr new ↦
            elim (dfs-Visits fuel t.id through s (Member-ids t steps inside.0)
              (not-contains t.id s.visited new) v
              (subst (λ p. Chain steps (p ++ t.id ∷ [])) (sym nowhere) tt) low) [
                | inl (text, same, names) ↦ inl (text, rw (search_steps, new, same) refl, names)
                | inr (s1, xs, same, cl, got) ↦
                    rw (search_steps, new, same)
                      (after_visit steps t.id (ids ts) through s s1 xs
                        (search_steps graph fuel ts s1) cl got
                        (search-Ends fuel ts (after through xs) s1 inside.1 (cl.path ∙ nowhere)
                          (cl.stack ∙ idle) (IsSound-Clears steps through s s1 xs cl v)
                          (unseen-Clears steps through s s1 xs fuel cl low)))
              ]
      ]

  each_inside :
      (ss : List Step) → ((t : Step) → Member t ss → Member t steps) → All (λ t. Member t steps) ss
  each_inside [] sub = tt
  each_inside (x ∷ xs) sub = (sub x (inl refl), each_inside xs (λ t m. sub t (inr m)))

  IsSound-blank : IsSound steps [] blank_search
  IsSound-blank = record { seen = λ k m. absurd m; stacked = λ k m. m; marked = λ k m. m }

  -- The search names a cycle, or it has left the steps in an order.
  pub find_cycle_lem :
      ((text : String) × (find_cycle steps ≡ some text) × NamesCycle steps text)
      ⊎ ((order : List Step) × Ordered [] order
          × Distinct (ids order)
          × ((t : Step) → Member t order → Member t steps)
          × ((k : String) → Member k (ids steps) → Member k (ids order)))
  unfolding find_cycle
  find_cycle_lem =
      elim (search-Ends (suc (length steps)) steps [] blank_search (each_inside steps (λ t m. m))
        refl refl IsSound-blank (omega (arith, unseen-none (ids steps), length-ids steps))) [
          | inl (text, same, names) ↦ inl (text, rw (same, find_cycle) refl, names)
          | inr (s', added, same, cl, all) ↦ inr (
            added,
            cl.ordered,
            cl.once,
            cl.inside,
            λ k m. elim (after-Member k [] added (All-Member _ (ids steps) all m)) [
              | inl bad ↦ absurd bad
              | inr n ↦ n
            ],
          )
        ]
