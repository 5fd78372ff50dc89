-- ===== src/Dag/Kahn/Loop.antt =====
-- The loop over the queue of src/dag.rs, to its end.
use kuromaku.Prelude.{
  ℕ, zero, suc, ◌<◌, String, ◌≡◌, refl, sym, ap, subst, ◌∙◌, ◌⊎◌, inl, inr, some, List, [], ◌∷◌,
  ◌++◌, Member, Distinct, All, Assoc, lookup, length, append_assoc, append-nil, All-map, arith,
}
use mathlib.Core.Option.{some-injective}
use kuromaku.Prelude.Text.{sort}
use kuromaku.Prelude.Text.Sorting.{Member-sort_iff, sort-Distinct}
use kuromaku.Prelude.Counting.Occurrences.{
  unseen, unseen-cons-lt, unseen-zero, zero-unseen, unseen-none,
}
use kuromaku.Config.{Step}
use kuromaku.Dag.{ids, step_map, in_degree, free_keys, texts_at, dependents, drain, kahn}
use kuromaku.Dag.Collect.{
  Member-ids, ids-Member, lookup-collect, collect-Distinct, keys-collect, free_keys-keys,
  length-ids, free_keys-Distinct, Member-free_keys, lookup-free_keys,
}
use kuromaku.Dag.Release.{release_lem}
use kuromaku.Dag.Kahn.{Covers-dependents, Drained, Inv, Inv-round, head_new}

Inv-start :
    (steps : List Step)
    → Distinct (ids steps)
    → Inv steps [] (sort (free_keys (in_degree steps))) (in_degree steps)
Inv-start steps d =
    let free = free_keys (in_degree steps) in
    let keys_once = collect-Distinct (λ s. length s.needs) steps [] tt in
    let here = λ (k : String) (m : Member k (sort free)).
      Member-free_keys k (in_degree steps) keys_once ((Member-sort_iff k free).0 m) in
    let at =
      λ (s : Step) (m : Member s steps). lookup-collect (λ x. length x.needs) s steps [] d m in
    record {
      degree = λ s m. at s m ∙ ap some (sym (unseen-none s.needs));
      ready = λ s m none_left. inr (
          (Member-sort_iff s.id free).1 (
            lookup-free_keys s.id (in_degree steps)
              (at s m ∙ ap some (sym (unseen-none s.needs) ∙ none_left))));
      settled = λ k h. elim h [ inl m ↦ absurd m | inr m ↦ here k m ];
      known = λ k m.
          elim (keys-collect (λ s. length s.needs) k steps []
            (free_keys-keys k (in_degree steps) ((Member-sort_iff k free).0 m))) [
              | inl n ↦ absurd n
              | inr n ↦ ids-Member k steps n
            ];
      once = sort-Distinct free (free_keys-Distinct (in_degree steps) keys_once);
      apart = λ k m n. n;
    }

Drained-end :
    (steps : List Step) (seen : List String) (degrees : Assoc ℕ)
    → Inv steps seen [] degrees
    → Drained steps seen []
Drained-end steps seen degrees v = record {
  ordered = tt;
  inside = λ s m. absurd m;
  once = tt;
  apart = λ k m n. m;
  closed = λ s m h. v.ready s m (
      zero-unseen s.needs seen
        (All-map _ _ s.needs (λ x w. elim w [ inl old ↦ old | inr n ↦ absurd n ]) h));
}

Drained-cons :
    (steps : List Step) (seen : List String) (s : Step) (rest : List Step)
    → Member s steps
    → ¬ Member s.id seen
    → All (λ d. Member d seen) s.needs
    → Drained steps (s.id ∷ seen) rest
    → Drained steps seen (s ∷ rest)
Drained-cons steps seen s rest m fresh needs r =
    let shift = λ (k : String) (w : Member k (s.id ∷ seen) ⊎ Member k (ids rest)).
      elim w as (λ x. Member k seen ⊎ Member k (ids (s ∷ rest))) [
        | inl (inl e) ↦ inr (inl e)
        | inl (inr old) ↦ inl old
        | inr later ↦ inr (inr later)
      ] in
    let unshift = λ (k : String) (w : Member k seen ⊎ Member k (ids (s ∷ rest))).
      elim w as (λ x. Member k (s.id ∷ seen) ⊎ Member k (ids rest)) [
        | inl old ↦ inl (inr old)
        | inr (inl e) ↦ inl (inl e)
        | inr (inr later) ↦ inr later
      ] in
    record {
      ordered = (needs, r.ordered);
      inside = λ t n. elim n [
        | inl e ↦ subst (λ x. Member x steps) (sym e) m
        | inr later ↦ r.inside t later
      ];
      once = ((λ n. r.apart s.id n (inl refl)), r.once);
      apart = λ k n old. elim n [
        | inl e ↦ fresh (subst (λ j. Member j seen) e old)
        | inr later ↦ r.apart k later (inr old)
      ];
      closed = λ t n h. shift t.id (r.closed t n (All-map _ _ t.needs unshift h));
    }

pub drain_lem :
    (steps : List Step) (seen queue : List String) (degrees : Assoc ℕ) (fuel : ℕ)
    (result : List Step)
    → Distinct (ids steps)
    → Inv steps seen queue degrees
    → unseen (ids steps) seen < fuel
    → (rest : List Step) × (drain (step_map steps) (dependents steps []) fuel queue degrees result
        ≡ some (result ++ rest))
      × Drained steps seen rest
unfolding drain
drain_lem steps seen queue degrees zero result d v low = absurd (omega arith)
drain_lem steps seen [] degrees (suc fuel) result d v low =
    ([], ap some (sym (append-nil result)), Drained-end steps seen degrees v)
drain_lem steps seen (id ∷ queue) degrees (suc fuel) result d v low =
    let (s, m, same) = v.known id (inl refl) in
    let fresh = head_new steps id seen queue degrees v in
    let (next, after, released, r) =
      release_lem (texts_at id (dependents steps [])) degrees
        (Covers-dependents steps id seen (id ∷ queue) degrees d fresh v) in
    let at : lookup id (step_map steps) ≡ some s =
      subst (λ j. lookup j (step_map steps) ≡ some s) same
        (lookup-collect (λ x. x) s steps [] d m) in
    let is_free : unseen s.needs seen ≡ 0 =
      some-injective _ _ (sym (v.degree s m) ∙ v.settled s.id (inr (inl same))) in
    let inside : Member id (ids steps) =
      subst (λ j. Member j (ids steps)) same (Member-ids s steps m) in
    let (rest, same_rest, ok_rest) =
      drain_lem steps (id ∷ seen) (queue ++ sort next) after fuel (result ++ s ∷ []) d
        (Inv-round steps id seen queue next degrees after d v r)
        (omega (arith, unseen-cons-lt (ids steps) seen id inside fresh)) in
    (
      s ∷ rest,
      rw (at, drain, released) (same_rest ∙ ap some (append_assoc result (s ∷ []) rest)),
      Drained-cons steps seen s rest m
          (λ old. v.apart id (inl refl) (subst (λ j. Member j seen) same old))
          (unseen-zero s.needs seen is_free)
          (subst (λ j. Drained steps (j ∷ seen) rest) (sym same) ok_rest),
    )

pub kahn_lem :
    (steps : List Step)
    → Distinct (ids steps)
    → (result : List Step) × (kahn steps ≡ some result) × Drained steps [] result
unfolding kahn
kahn_lem steps d =
    drain_lem steps [] (sort (free_keys (in_degree steps))) (in_degree steps) (suc (length steps))
      [] d (Inv-start steps d) (omega (arith, unseen-none (ids steps), length-ids steps))
