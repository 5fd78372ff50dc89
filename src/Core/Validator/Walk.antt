-- ===== src/Core/Validator/Walk.antt =====
-- One round of the walk, and its end: every state that is pushed was new, so the rounds are no more
-- than the targets and the initial state.
use kuromaku.Prelude.{
  ℕ, zero, suc, ◌+◌, ◌≤◌, String, ◌≡◌, refl, ap, ◌⊎◌, inl, inr, true, false, some, List, [], ◌∷◌,
  ◌++◌, Assoc, length, All, All-map, Member, contains, contains-Member, Member-append_right, lookup,
  str_eq, Bool-cases, arith,
}
use kuromaku.Prelude.Counting.Occurrences.{unseen, unseen-cons-lt}
use kuromaku.Core.GraphFlow.{GraphFlow, GraphState, SelectEntry}
use kuromaku.Core.Validator.{
  Walk, visit_targets, entries_of, entries_at, walk, all_targets, visited_states,
}
use kuromaku.Core.Validator.Spec.{targets}

-- The inner loop: what it marks and what it pushes.
pub record Grows (es : List SelectEntry) (before after : Walk) : Type 0 where
  pub keeps_visited : (k : String) → Member k before.0 → Member k after.0
  pub keeps_frontier : (k : String) → Member k before.1 → Member k after.1
  pub marks : All (λ e. Member e.target after.0) es
  pub marked : (k : String) → Member k after.0 → Member k before.0 ⊎ Member k (targets es)
  pub pushed : (k : String) → Member k after.0 → Member k before.0 ⊎ Member k after.1
  pub tops : (k : String) → Member k after.1 → Member k before.1 ⊎ Member k (targets es)

Grows-seen :
    (e : SelectEntry) (es : List SelectEntry) (v f : List String) {w : Walk}
    → contains e.target v ≡ true
    → Grows es (v, f) w
    → Grows (e ∷ es) (v, f) w
Grows-seen e es v f old g = record {
  keeps_visited = g.keeps_visited;
  keeps_frontier = g.keeps_frontier;
  marks = (g.keeps_visited e.target (contains-Member e.target v old), g.marks);
  marked = λ k m. elim (g.marked k m) [ inl had ↦ inl had | inr new ↦ inr (inr new) ];
  pushed = g.pushed;
  tops = λ k m. elim (g.tops k m) [ inl had ↦ inl had | inr new ↦ inr (inr new) ];
}

Grows-new :
    (e : SelectEntry) (es : List SelectEntry) (v f : List String) {w : Walk}
    → Grows es (e.target ∷ v, e.target ∷ f) w
    → Grows (e ∷ es) (v, f) w
Grows-new e es v f g = record {
  keeps_visited = λ k m. g.keeps_visited k (inr m);
  keeps_frontier = λ k m. g.keeps_frontier k (inr m);
  marks = (g.keeps_visited e.target (inl refl), g.marks);
  marked = λ k m. elim (g.marked k m) [
    | inl (inl here) ↦ inr (inl here)
    | inl (inr had) ↦ inl had
    | inr new ↦ inr (inr new)
  ];
  pushed = λ k m. elim (g.pushed k m) [
    | inl (inl here) ↦ inr (g.keeps_frontier k (inl here))
    | inl (inr had) ↦ inl had
    | inr top ↦ inr top
  ];
  tops = λ k m. elim (g.tops k m) [
    | inl (inl here) ↦ inr (inl here)
    | inl (inr had) ↦ inl had
    | inr new ↦ inr (inr new)
  ];
}

visit_targets_seen :
    (e : SelectEntry) (es : List SelectEntry) (v f : List String)
    → contains e.target v ≡ true
    → visit_targets (e ∷ es) (v, f) ≡ visit_targets es (v, f)
unfolding visit_targets
visit_targets_seen e es v f old = rw old

visit_targets_new :
    (e : SelectEntry) (es : List SelectEntry) (v f : List String)
    → contains e.target v ≡ false
    → visit_targets (e ∷ es) (v, f) ≡ visit_targets es (e.target ∷ v, e.target ∷ f)
unfolding visit_targets
visit_targets_new e es v f new = rw new

pub visit_targets-Grows :
    (es : List SelectEntry) (v f : List String) → Grows es (v, f) (visit_targets es (v, f))
unfolding visit_targets
visit_targets-Grows [] v f = record {
  keeps_visited = λ k m. m;
  keeps_frontier = λ k m. m;
  marks = tt;
  marked = λ k m. inl m;
  pushed = λ k m. inl m;
  tops = λ k m. inl m;
}
visit_targets-Grows (e ∷ es) v f = elim (Bool-cases (contains e.target v)) [
  | inl old ↦ rw old (Grows-seen e es v f old (visit_targets-Grows es v f))
  | inr new ↦ rw new (Grows-new e es v f (visit_targets-Grows es (e.target ∷ v) (e.target ∷ f)))
]

module _ (all : List String) where
  -- Falls with each state that is taken off the stack.
  abbrev work : Walk → ℕ
  work (visited, frontier) = length frontier + unseen all visited

  visit_targets-work :
      (es : List SelectEntry) (v f : List String)
      → All (λ e. Member e.target all) es
      → work (visit_targets es (v, f)) ≤ work (v, f)
  visit_targets-work [] v f h = unfold visit_targets in omega arith
  visit_targets-work (e ∷ es) v f h = elim (Bool-cases (contains e.target v)) [
    | inl old ↦
        omega (arith, ap work (visit_targets_seen e es v f old), visit_targets-work es v f h.1)
    | inr new ↦ omega (
      arith,
      ap work (visit_targets_new e es v f new),
      visit_targets-work es (e.target ∷ v) (e.target ∷ f) h.1,
      unseen-cons-lt all v e.target h.0 new,
    )
  ]

  walk_ends :
      (states : Assoc GraphState)
      → ((id : String) → All (λ e. Member e.target all) (entries_at states id))
      → (fuel : ℕ) (v f : List String) → work (v, f) ≤ fuel
      → (r : List String) × (walk states fuel (v, f) ≡ some r)
  unfolding walk
  walk_ends states listed fuel v [] h = (v, refl)
  walk_ends states listed zero v (id ∷ f) h = absurd (omega arith)
  walk_ends states listed (suc fuel) v (id ∷ f) h =
      let (v', f') = visit_targets (entries_at states id) (v, f) in
      walk_ends states listed fuel v' f'
        (omega (arith, visit_targets-work (entries_at states id) v f (listed id)))

All-targets :
    (es : List SelectEntry) (more : List String)
    → All (λ e. Member e.target (targets es ++ more)) es
All-targets [] more = tt
All-targets (e ∷ es) more = (inl refl, All-map _ _ es (λ x m. inr m) (All-targets es more))

entries_at_here :
    (j id : String) (s : GraphState) (m : Assoc GraphState)
    → str_eq id j ≡ true
    → entries_at ((j, s) ∷ m) id ≡ entries_of s
unfolding lookup
entries_at_here j id s m e = ground arith

entries_at_later :
    (j id : String) (s : GraphState) (m : Assoc GraphState)
    → str_eq id j ≡ false
    → entries_at ((j, s) ∷ m) id ≡ entries_at m id
unfolding lookup
entries_at_later j id s m e = ground arith

entries_at-listed :
    (states : Assoc GraphState) (id : String)
    → All (λ e. Member e.target (all_targets states)) (entries_at states id)
unfolding lookup
entries_at-listed [] id = tt
entries_at-listed ((j, s) ∷ m) id = elim (Bool-cases (str_eq id j)) [
  | inl e ↦ rw (entries_at_here j id s m e) (All-targets (entries_of s) (all_targets m))
  | inr e ↦ rw (entries_at_later j id s m e) (
      All-map _ _ (entries_at m id)
        (λ x h. Member-append_right x.target (targets (entries_of s)) (all_targets m) h)
        (entries_at-listed m id))
]

unseen-le-length : (all visited : List String) → unseen all visited ≤ length all
unfolding unseen
unseen-le-length [] visited = omega arith
unseen-le-length (t ∷ ts) visited = ground (arith, unseen-le-length ts visited)

-- The fuel is enough: the walk always ends by its test.
pub walk_total : (g : GraphFlow) → (v : List String) × (visited_states g ≡ some v)
unfolding visited_states
walk_total g =
    walk_ends (all_targets g.graph) g.graph (entries_at-listed g.graph)
      (suc (length (all_targets g.graph))) (g.initial ∷ []) (g.initial ∷ [])
      (omega (arith, unseen-le-length (all_targets g.graph) (g.initial ∷ [])))
