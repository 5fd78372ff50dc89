-- ===== src/Dag/Sorted.antt =====
-- When the steps of src/dag.rs have an order, and when a need is unknown.
use kuromaku.Prelude.{
  ℕ, String, ◌≡◌, refl, sym, subst, ◌⊎◌, inl, inr, true, false, none, some, List, [], ◌∷◌, All,
  All-map, All-Member, Member, Distinct, length, ◌==◌, contains, contains-Member, not-contains,
  Bool-cases, arith,
}
use kuromaku.Prelude.Counting.{Distinct-length, fill}
use kuromaku.Config.{Step}
use kuromaku.Dag.{DagError, cycle, unknown_step, ids, unknown_need, unknown_reference}
use kuromaku.Dag.Spec.{Ordered, IsOrder, NamesCycle}
use kuromaku.Dag.Collect.{Member-ids, ids-Member, same_step, length-ids}
use kuromaku.Dag.Kahn.{Drained}

-- The error tells what is wrong with the steps.
abbrev pub Explains : List Step → DagError → Type 0
Explains steps (cycle text) = NamesCycle steps text
Explains steps (unknown_step step referenced) =
    (s : Step) × Member s steps
    × (s.id ≡ step)
    × Member referenced s.needs
    × (¬ Member referenced (ids steps))

pub is_eq : {m n : ℕ} → m == n ≡ true → m ≡ n
is_eq h = ground arith

pub not_eq : {m n : ℕ} → m == n ≡ false → ¬ (m ≡ n)
not_eq h e = ground arith

pub eq_is : {m n : ℕ} → m ≡ n → m == n ≡ true
eq_is h = ground arith

unknown_need_lem :
    (known : List String) (step : String) (deps : List String)
    → ((d : String) × (unknown_need known step deps ≡ some (unknown_step step d))
        × Member d deps
        × (¬ Member d known))
      ⊎ ((unknown_need known step deps ≡ none) × All (λ d. Member d known) deps)
unfolding unknown_need
unknown_need_lem known step [] = inr (refl, tt)
unknown_need_lem known step (d ∷ ds) = elim (Bool-cases (contains d known)) [
  | inr e ↦ inl (d, rw (unknown_need, e) refl, inl refl, not-contains d known e)
  | inl e ↦ elim (unknown_need_lem known step ds) [
    | inl (x, same, m, out) ↦ inl (x, rw (unknown_need, e) same, inr m, out)
    | inr (same, all) ↦ inr (rw (unknown_need, e) same, (contains-Member d known e, all))
  ]
]

abbrev FirstUnknown : List String → List Step → Type 0
FirstUnknown known ss =
    (s : Step) × (d : String) × (unknown_reference known ss ≡ some (unknown_step s.id d))
    × Member s ss
    × Member d s.needs
    × (¬ Member d known)

pub unknown_reference_lem :
    (known : List String) (ss : List Step)
    → FirstUnknown known ss
      ⊎ ((unknown_reference known ss ≡ none)
          × ((s : Step) → Member s ss → All (λ d. Member d known) s.needs))
unfolding unknown_reference
unknown_reference_lem known [] = inr (refl, λ s m. absurd m)
unknown_reference_lem known (s ∷ ss) = elim (unknown_need_lem known s.id s.needs) [
  | inl (d, same, m, out) ↦ inl (s, d, rw (unknown_reference, same) refl, inl refl, m, out)
  | inr (same, all) ↦ elim (unknown_reference_lem known ss) [
    | inl (t, d, later, inside, m, out) ↦
        inl (t, d, rw (unknown_reference, same) later, inr inside, m, out)
    | inr (later, rest) ↦ inr (
      rw (unknown_reference, same) later,
      λ t n. elim n [
        | inl e ↦ subst (λ (x : Step). All (λ d. Member d known) x.needs) (sym e) all
        | inr deeper ↦ rest t deeper
      ],
    )
  ]
]

all_inside : (ss : List Step) → All (λ t. Member t ss) ss
all_inside ss = each ss (λ t m. m)
  where
    each : (xs : List Step) → ((t : Step) → Member t xs → Member t ss) → All (λ t. Member t ss) xs
    each [] sub = tt
    each (x ∷ xs) sub = (sub x (inl refl), each xs (λ t m. sub t (inr m)))

all_ids :
    (ss rest : List Step)
    → ((s : Step) → Member s rest → Member s ss)
    → All (λ k. Member k (ids ss)) (ids rest)
all_ids ss [] sub = tt
all_ids ss (s ∷ rest) sub =
    (Member-ids s ss (sub s (inl refl)), all_ids ss rest (λ t m. sub t (inr m)))

-- Steps whose ids are those of all steps are an order if they stand in one.
pub IsOrder-of :
    (steps order : List Step)
    → Distinct (ids steps)
    → Ordered [] order
    → Distinct (ids order)
    → ((s : Step) → Member s order → Member s steps)
    → ((k : String) → Member k (ids steps) → Member k (ids order))
    → IsOrder steps order
IsOrder-of steps order distinct o once inside all = record {
  ordered = o;
  distinct = once;
  same = λ s. (
    inside s,
    λ m.
        let (t, n, e) = ids-Member s.id order (all s.id (Member-ids s steps m)) in
        subst (λ x. Member x order) (same_step t s steps distinct (inside t n) m e) n,
  );
}

-- An order of the steps is no longer than what the loop has sorted.
sorts_all :
    (steps result order : List Step) (seen : List String)
    → Drained steps [] result
    → ((s : Step) → Member s order → Member s steps)
    → All (λ k. Member k (ids result)) seen
    → Ordered seen order
    → (s : Step) → Member s order
    → Member s.id (ids result)
sorts_all steps result [] seen r inside before o s m = absurd m
sorts_all steps result (t ∷ order) seen r inside before o s m =
    let here : Member t.id (ids result) =
      elim (r.closed t (inside t (inl refl))
        (All-map _ _ t.needs (λ d n. inr (All-Member _ seen before n)) o.0)) [
          | inl bad ↦ absurd bad
          | inr n ↦ n
        ] in
    elim m [
      | inl e ↦ subst (λ (x : Step). Member x.id (ids result)) (sym e) here
      | inr n ↦
          sorts_all steps result order (t.id ∷ seen) r (λ x k. inside x (inr k)) (here, before) o.1
            s n
    ]

-- Where there is an order, the loop sorts all steps.
pub length-sorted :
    (steps result order : List Step)
    → Distinct (ids steps)
    → Drained steps [] result
    → IsOrder steps order
    → length result ≡ length steps
length-sorted steps result order distinct r o =
    let most = Distinct-length (ids result) (ids steps) r.once (all_ids steps result r.inside) in
    let reached = λ (s : Step) (m : Member s steps).
      sorts_all steps result order [] r (λ x. (o.same x).0) tt o.ordered s ((o.same s).1 m) in
    let least = Distinct-length (ids steps) (ids result) distinct (each steps reached) in
    omega (arith, most, least, length-ids steps, length-ids result)
  where
    each :
        (ss : List Step)
        → ((s : Step) → Member s ss → Member s.id (ids result))
        → All (λ k. Member k (ids result)) (ids ss)
    each [] sub = tt
    each (x ∷ xs) sub = (sub x (inl refl), each xs (λ t m. sub t (inr m)))

pub IsOrder-sorted :
    (steps result : List Step)
    → Distinct (ids steps)
    → Drained steps [] result
    → length result ≡ length steps
    → IsOrder steps result
IsOrder-sorted steps result distinct r full =
    IsOrder-of steps result distinct r.ordered r.once r.inside (
      fill (ids result) (ids steps) r.once (all_ids steps result r.inside)
        (omega (arith, full, length-ids steps, length-ids result)))
