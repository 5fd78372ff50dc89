-- ===== src/Dag/Dependents.antt =====
-- The dependents of a step: the steps that need it, as often as they list it.
use kuromaku.Prelude.{
  ℕ, ◌+◌, ◌<◌, String, ◌≡◌, refl, sym, ap, subst, ◌∙◌, inl, inr, List, [], ◌∷◌, ◌++◌, Member,
  Distinct, Assoc, insert, lookup-insert, str_eq, str_eq_refl, str-cases, ltb, if◌then◌else◌,
  Bool-cases, arith,
}
use kuromaku.Prelude.Counting.Occurrences.{count, count-append, count-Member, Member-count}
use kuromaku.Config.{Step}
use kuromaku.Dag.{ids, texts_at, add_dependents, dependents}
use kuromaku.Dag.Collect.{Member-ids}
use kuromaku.Dag.Spec.{Needs}

texts_at-insert :
    (k j : String) (v : List String) (m : Assoc (List String))
    → texts_at j (insert k v m) ≡ (if str_eq j k then v else texts_at j m)
unfolding texts_at
texts_at-insert k j v m = ground (arith, lookup-insert k j v m)

-- How often `x` is put under `dep` for the needs of one step.
abbrev share : String → String → String → List String → ℕ
share x dep step needs = if str_eq x step then count dep needs else 0

count-add_dependents :
    (x dep step : String) (needs : List String) (m : Assoc (List String))
    → count x (texts_at dep (add_dependents step needs m))
      ≡ count x (texts_at dep m) + share x dep step needs
unfolding add_dependents count
count-add_dependents x dep step [] m = ground arith
count-add_dependents x dep step (n ∷ ns) m =
    let m' = insert n (texts_at n m ++ step ∷ []) m in
    let later = count-add_dependents x dep step ns m' in
    let here = texts_at-insert n dep (texts_at n m ++ step ∷ []) m in
    let added = count-append x (texts_at n m) (step ∷ []) in
    elim (str-cases dep n) [
      | inl e ↦ ground (arith, later, here, added, e.0, ap (λ k. count x (texts_at k m)) e.1)
      | inr e ↦ ground (arith, later, here, e)
    ]

total : String → String → List Step → ℕ
total x dep [] = 0
total x dep (s ∷ ss) = share x dep s.id s.needs + total x dep ss

count-dependents :
    (x dep : String) (ss : List Step) (m : Assoc (List String))
    → count x (texts_at dep (dependents ss m)) ≡ count x (texts_at dep m) + total x dep ss
unfolding dependents total
count-dependents x dep [] m = omega arith
count-dependents x dep (s ∷ ss) m = omega (
  arith,
  count-dependents x dep ss (add_dependents s.id s.needs m),
  count-add_dependents x dep s.id s.needs m,
)

total-other : (x dep : String) (ss : List Step) → ¬ Member x (ids ss) → total x dep ss ≡ 0
unfolding total
total-other x dep [] h = refl
total-other x dep (s ∷ ss) h = elim (str-cases x s.id) [
  | inl e ↦ absurd (h (inl e.1))
  | inr e ↦ rw e (omega (arith, total-other x dep ss (λ n. h (inr n))))
]

total-step :
    (s : Step) (dep : String) (ss : List Step)
    → Distinct (ids ss)
    → Member s ss
    → total s.id dep ss ≡ count dep s.needs
unfolding total
total-step s dep [] d m = absurd m
total-step s dep (t ∷ ts) d (inl e) =
    subst (λ (u : Step). total u.id dep (t ∷ ts) ≡ count dep u.needs) (sym e)
      (ground (arith, str_eq_refl t.id, total-other t.id dep ts d.0))
total-step s dep (t ∷ ts) d (inr m) = elim (str-cases s.id t.id) [
  | inl e ↦ absurd (d.0 (rw (← e.1) (Member-ids s ts m)))
  | inr e ↦ rw e (omega (arith, total-step s dep ts d.1 m))
]

total-Needs : (x dep : String) (ss : List Step) → 0 < total x dep ss → Needs ss x dep
unfolding total
total-Needs x dep [] h = absurd (omega arith)
total-Needs x dep (s ∷ ss) h = elim (str-cases x s.id) [
  | inl e ↦ elim (Bool-cases (ltb 0 (count dep s.needs))) [
    | inl some_here ↦ (s, inl refl, sym e.1, count-Member dep s.needs (ground arith))
    | inr none_here ↦
        let h' : 0 < count dep s.needs + total x dep ss = rw e.0 at h in
        let (t, m, same, n) = total-Needs x dep ss (ground arith) in (t, inr m, same, n)
  ]
  | inr e ↦
      let h' : 0 < 0 + total x dep ss = rw e at h in
      let (t, m, same, n) = total-Needs x dep ss (omega (arith, h')) in (t, inr m, same, n)
]

texts_at-nil : (dep : String) → texts_at dep [] ≡ []
unfolding texts_at
texts_at-nil dep = refl

module _ (steps : List Step) (dep : String) where
  listed : (x : String) → count x (texts_at dep (dependents steps [])) ≡ total x dep steps
  unfolding count
  listed x = count-dependents x dep steps [] ∙ (rw (texts_at-nil dep) (omega arith))

  pub dependents-count :
      (s : Step)
      → Distinct (ids steps)
      → Member s steps
      → count s.id (texts_at dep (dependents steps [])) ≡ count dep s.needs
  dependents-count s d m = listed s.id ∙ total-step s dep steps d m

  pub dependents-Needs :
      (x : String) → Member x (texts_at dep (dependents steps [])) → Needs steps x dep
  dependents-Needs x m =
      total-Needs x dep steps
        (omega (arith, listed x, Member-count x (texts_at dep (dependents steps [])) m))
