-- ===== src/Dag/Kahn.antt =====
-- The loop over the queue: what holds before each round, and what the loop returns.
pub mod Loop
use kuromaku.Prelude.{
  ℕ, zero, suc, ◌-◌, ◌≤◌, ◌<◌, String, ◌≡◌, refl, sym, ap, subst, ◌∙◌, ◌⊎◌, inl, inr, false, some,
  List, [], ◌∷◌, ◌++◌, Member, Distinct, Distinct-append, All, ◌==◌, Assoc, lookup, length,
  append_assoc, append-nil, contains, contains-Member, Member-append_cases, Member-append_left,
  Member-append_right, All-map, Bool-cases, arith,
}
use mathlib.Core.Option.{some-injective}
use kuromaku.Prelude.Text.{sort}
use kuromaku.Prelude.Text.Sorting.{Member-sort_iff, sort-Distinct}
use kuromaku.Prelude.Counting.Occurrences.{
  unseen, count, unseen-count, unseen-cons-lt, unseen-zero, zero-unseen, unseen-none, count-Member,
}
use kuromaku.Config.{Step}
use kuromaku.Dag.{ids, step_map, in_degree, free_keys, texts_at, dependents, drain, kahn}
use kuromaku.Dag.Collect.{
  Member-ids, ids-Member, lookup-collect, collect-Distinct, keys-collect, free_keys-keys,
  length-ids, free_keys-Distinct, Member-free_keys, lookup-free_keys,
}
use kuromaku.Dag.Dependents.{dependents-count, dependents-Needs}
use kuromaku.Dag.Release.{Covers, Releases, release_lem}
use kuromaku.Dag.Spec.{Ordered}

-- `seen` are the ids of the steps in the result.
pub record Inv (steps : List Step) (seen queue : List String) (degrees : Assoc ℕ) : Type 0 where
  pub degree : (s : Step) → Member s steps → lookup s.id degrees ≡ some (unseen s.needs seen)
  pub ready :
      (s : Step) → Member s steps → unseen s.needs seen ≡ 0 → Member s.id seen ⊎ Member s.id queue
  pub settled : (k : String) → Member k seen ⊎ Member k queue → lookup k degrees ≡ some 0
  pub known : (k : String) → Member k queue → (s : Step) × Member s steps × (s.id ≡ k)
  pub once : Distinct queue
  pub apart : (k : String) → Member k queue → ¬ Member k seen

-- What the rest of the loop adds to the result.
pub record Drained (steps : List Step) (seen : List String) (rest : List Step) : Type 0 where
  pub ordered : Ordered seen rest
  pub inside : (s : Step) → Member s rest → Member s steps
  pub once : Distinct (ids rest)
  pub apart : (k : String) → Member k (ids rest) → ¬ Member k seen
  pub closed :
      (s : Step)
      → Member s steps
      → All (λ d. Member d seen ⊎ Member d (ids rest)) s.needs
      → Member s.id seen ⊎ Member s.id (ids rest)

pub head_new :
    (steps : List Step) (id : String) (seen queue : List String) (degrees : Assoc ℕ)
    → Inv steps seen (id ∷ queue) degrees
    → contains id seen ≡ false
head_new steps id seen queue degrees v = elim (Bool-cases (contains id seen)) [
  | inl old ↦ absurd (v.apart id (inl refl) (contains-Member id seen old))
  | inr fresh ↦ fresh
]

pub Covers-dependents :
    (steps : List Step) (id : String) (seen queue : List String) (degrees : Assoc ℕ)
    → Distinct (ids steps)
    → contains id seen ≡ false
    → Inv steps seen queue degrees
    → Covers (texts_at id (dependents steps [])) degrees
Covers-dependents steps id seen queue degrees d new v k pos =
    let ds = texts_at id (dependents steps []) in
    let (s, m, same, n) = dependents-Needs steps id k (count-Member k ds pos) in
    let eq = dependents-count steps id s d m in
    (
      unseen s.needs seen,
      subst (λ j. lookup j degrees ≡ some (unseen s.needs seen)) same (v.degree s m),
      subst (λ j. count j ds ≤ unseen s.needs seen) same
          (omega (arith, eq, unseen-count id s.needs seen new)),
    )

module _ (steps : List Step) (id : String) (seen queue next : List String) (before after : Assoc ℕ)
    (d : Distinct (ids steps)) (v : Inv steps seen (id ∷ queue) before)
    (r : Releases (texts_at id (dependents steps [])) before next after) where
  abbrev ds : List String
  ds = texts_at id (dependents steps [])

  -- A step that is freed was not yet in the queue or in the result.
  next_new : (k : String) → Member k next → ¬ (Member k seen ⊎ Member k (id ∷ queue))
  next_new k m old = let (pos, here) = r.freed k m in ground (arith, pos, here, v.settled k old)

  split : (k : String) → Member k (queue ++ sort next) → Member k queue ⊎ Member k next
  split k m = elim (Member-append_cases k queue (sort next) m) [
    | inl q ↦ inl q
    | inr n ↦ inr ((Member-sort_iff k next).0 n)
  ]

  falls :
      (s : Step) → Member s steps → unseen s.needs (id ∷ seen) ≡ unseen s.needs seen - count s.id ds
  falls s m = omega (
    arith,
    dependents-count steps id s d m,
    unseen-count id s.needs seen (head_new steps id seen queue before v),
  )

  round_ready :
      (s : Step)
      → Member s steps
      → unseen s.needs (id ∷ seen) ≡ 0
      → Member s.id (id ∷ seen) ⊎ Member s.id (queue ++ sort next)
  round_ready s m zero_now =
      let eq = dependents-count steps id s d m in
      let sum = unseen-count id s.needs seen (head_new steps id seen queue before v) in
      elim (Bool-cases (unseen s.needs seen == 0)) [
        | inl e ↦ elim (v.ready s m (ground arith)) [
          | inl old ↦ inl (inr old)
          | inr (inl here) ↦ inl (inl here)
          | inr (inr q) ↦ inr (Member-append_left s.id queue (sort next) q)
        ]
        | inr e ↦
            let total : unseen s.needs seen ≡ count s.id ds = omega (arith, eq, sum, zero_now) in
            let freed = r.frees s.id (ground (arith, total)) (v.degree s m ∙ ap some total) in
            inr (Member-append_right s.id queue (sort next) ((Member-sort_iff s.id next).1 freed))
      ]

  round_settled :
      (k : String) → Member k (id ∷ seen) ⊎ Member k (queue ++ sort next) → lookup k after ≡ some 0
  round_settled k h =
      let old : Member k seen ⊎ Member k (id ∷ queue) → lookup k after ≡ some 0 =
        λ w. r.lowers k 0 (v.settled k w) ∙ ap some (omega arith) in
      elim h [
        | inl (inl e) ↦ old (inr (inl e))
        | inl (inr m) ↦ old (inl m)
        | inr m ↦ elim (split k m) [
          | inl q ↦ old (inr (inr q))
          | inr n ↦
              let (pos, here) = r.freed k n in r.lowers k (count k ds) here ∙ ap some (omega arith)
        ]
      ]

  round_known :
      (k : String) → Member k (queue ++ sort next) → (s : Step) × Member s steps × (s.id ≡ k)
  round_known k m = elim (split k m) [
    | inl q ↦ v.known k (inr q)
    | inr n ↦
        let (s, inside, same, need) =
          dependents-Needs steps id k
            (count-Member k (texts_at id (dependents steps [])) (r.freed k n).0) in
        (s, inside, same)
  ]

  pub Inv-round : Inv steps (id ∷ seen) (queue ++ sort next) after
  Inv-round = record {
    degree = λ s m. r.lowers s.id (unseen s.needs seen) (v.degree s m) ∙ ap some (sym (falls s m));
    ready = round_ready;
    settled = round_settled;
    known = round_known;
    once =
        Distinct-append queue (sort next) v.once.1 (sort-Distinct next r.distinct)
          (λ k q n. next_new k ((Member-sort_iff k next).0 n) (inr (inr q)));
    apart = λ k m old. elim (split k m) [
      | inl q ↦ elim old [
        | inl e ↦ v.once.0 (subst (λ j. Member j queue) e q)
        | inr o ↦ v.apart k (inr q) o
      ]
      | inr n ↦ next_new k n (elim old [ inl e ↦ inr (inl e) | inr o ↦ inl o ])
    ];
  }
