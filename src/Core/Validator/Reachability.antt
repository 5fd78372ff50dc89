-- ===== src/Core/Validator/Reachability.antt =====
-- The walk of `validate_graph_reachability` marks exactly the states that a path leads to, and the
-- report names the dead ends and the states that no path leads to.
use kuromaku.Prelude.{
  ℕ, zero, suc, String, ◌≡◌, refl, subst, ◌↔◌, ◌⊎◌, inl, inr, some, List, [], ◌∷◌, Assoc, length,
  All, All-map, Member,
}
use mathlib.Core.Option.{some-injective}
use kuromaku.Core.GraphFlow.{GraphFlow, GraphState, SelectEntry}
use kuromaku.Core.Validator.{Walk, visit_targets, entries_at, all_targets, walk, visited_states}
use kuromaku.Core.Validator.Spec.{targets}
use kuromaku.Core.Validator.Walk.{visit_targets-Grows, walk_total}

-- A path through the `next:` lists, from `start`.
pub data Reaches (states : Assoc GraphState) (start : String) : String → Type 0 where
  here : Reaches states start start
  follow :
      {id t : String}
      → Reaches states start id
      → Member t (targets (entries_at states id))
      → Reaches states start t

Member-targets :
    (v : List String) (es : List SelectEntry) (k : String)
    → All (λ e. Member e.target v) es
    → Member k (targets es)
    → Member k v
Member-targets v [] k h m = absurd m
Member-targets v (e ∷ es) k h (inl same) = rw same h.0
Member-targets v (e ∷ es) k h (inr m) = Member-targets v es k h.1 m

module _ (states : Assoc GraphState) (start : String) where
  -- What holds of `visited` and `frontier` between two rounds.
  record IsWalk (w : Walk) : Type 0 where
    reached : (k : String) → Member k w.0 → Reaches states start k
    stacked : (k : String) → Member k w.1 → Member k w.0
    started : Member start w.0
    -- A visited state is on the stack, or its targets are visited too.
    closed :
        (k : String)
        → Member k w.0
        → Member k w.1 ⊎ All (λ e. Member e.target w.0) (entries_at states k)

  IsWalk-round :
      (id : String) (v f : List String)
      → IsWalk (v, id ∷ f)
      → IsWalk (visit_targets (entries_at states id) (v, f))
  IsWalk-round id v f w =
      let g = visit_targets-Grows (entries_at states id) v f in
      record {
        reached = λ k m. elim (g.marked k m) [
          | inl had ↦ w.reached k had
          | inr new ↦ follow (w.reached id (w.stacked id (inl refl))) new
        ];
        stacked = λ k m. elim (g.tops k m) [
          | inl had ↦ g.keeps_visited k (w.stacked k (inr had))
          | inr new ↦ Member-targets _ (entries_at states id) k g.marks new
        ];
        started = g.keeps_visited start w.started;
        closed = λ k m. elim (g.pushed k m) [
          | inr top ↦ inl top
          | inl had ↦ elim (w.closed k had) [
            | inl (inl top) ↦ inr (rw top g.marks)
            | inl (inr below) ↦ inl (g.keeps_frontier k below)
            | inr done ↦
                inr
                  (All-map _ _ (entries_at states k) (λ e had'. g.keeps_visited e.target had') done)
          ]
        ];
      }

  walk-IsWalk :
      (fuel : ℕ) (v f r : List String)
      → IsWalk (v, f)
      → walk states fuel (v, f) ≡ some r
      → IsWalk (r, [])
  unfolding walk
  walk-IsWalk fuel v [] r w h = subst (λ l. IsWalk (l, [])) (some-injective v r h) w
  walk-IsWalk zero v (id ∷ f) r w h = cc
  walk-IsWalk (suc fuel) v (id ∷ f) r w h =
      let next = IsWalk-round id v f w in
      let (v', f') = visit_targets (entries_at states id) (v, f) in walk-IsWalk fuel v' f' r next h

  IsWalk-start : IsWalk (start ∷ [], start ∷ [])
  IsWalk-start = record {
    reached = λ k m. elim m [ inl e ↦ rw e here | inr n ↦ absurd n ];
    stacked = λ k m. m;
    started = inl refl;
    closed = λ k m. inl m;
  }

  Reaches-visited :
      {r : List String} {k : String} → IsWalk (r, []) → Reaches states start k → Member k r
  Reaches-visited w here = w.started
  Reaches-visited w (follow {id} {t} p m) = elim (w.closed id (Reaches-visited w p)) [
    | inl top ↦ absurd top
    | inr marked ↦ Member-targets _ (entries_at states id) t marked m
  ]

-- The walk ends, and the states it has visited are exactly those that a path of `next:` entries
-- leads to from the initial state.
pub visited-Reaches :
    (g : GraphFlow)
    → (v : List String) × (visited_states g ≡ some v)
      × ((k : String) → Member k v ↔ Reaches g.graph g.initial k)
visited-Reaches g =
    let (v, ended) = walk_total g in
    let w =
      walk-IsWalk g.graph g.initial (suc (length (all_targets g.graph))) (g.initial ∷ [])
        (g.initial ∷ []) v (IsWalk-start g.graph g.initial) (unfold visited_states in ended) in
    (v, ended, λ k. (w.reached k, Reaches-visited g.graph g.initial w))
