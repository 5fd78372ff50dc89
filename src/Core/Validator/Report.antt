-- ===== src/Core/Validator/Report.antt =====
-- The report of `validate_graph_reachability`: which errors and which warnings it holds.
use kuromaku.Prelude.{
  String, ◌≡◌, refl, ap, subst, ◌↔◌, ◌⊎◌, inl, inr, true, false, not, ◌&&◌, some, List, [], ◌∷◌,
  ◌++◌, map, Assoc, keys, is_empty, Member, contains, contains-Member, not-contains,
  Member-append_cases, Member-append_right, Bool-cases, Option-cases, Member-append_left, arith,
}
use kuromaku.Prelude.Text.{is_blank, sort}
use kuromaku.Prelude.Text.Sorting.{Member-sort_iff}
use kuromaku.Core.GraphFlow.{GraphFlow, GraphState, is_final, is_terminal}
use kuromaku.Core.Validator.{
  Finding, dead_end, undescribed, unreachable, is_blank_option, GraphValidationReport, entries_of,
  dead_ends, undescribed_finals, unvisited, unreachable_in, validate_graph_reachability,
}
use kuromaku.Core.Validator.Reachability.{Reaches, visited-Reaches}

-- A state that the run could not leave and that does not end the run.
abbrev pub IsDeadEnd : GraphState → Type 0
IsDeadEnd s = (entries_of s ≡ []) × (is_terminal s ≡ false)

-- A final state whose description says nothing.
abbrev pub IsUndescribed : GraphState → Type 0
IsUndescribed s =
    (description : String) × (s.final_desc ≡ some description) × (is_blank description ≡ true)

abbrev pub IsUndescribedIn : GraphFlow → Finding → Type 0
IsUndescribedIn g f =
    (id : String) × (s : GraphState) × (f ≡ undescribed id)
    × Member (id, s) g.graph
    × IsUndescribed s

abbrev pub IsUnreachableIn : GraphFlow → Finding → Type 0
IsUnreachableIn g f =
    (id : String) × (f ≡ unreachable id g.initial)
    × Member id (keys g.graph)
    × (¬ Reaches g.graph g.initial id)

eq-nil_of_empty : {A : Type 0} (xs : List A) → is_empty xs ≡ true → xs ≡ []
eq-nil_of_empty [] h = refl
eq-nil_of_empty (x ∷ xs) h = cc

dead_test_sound :
    (s : GraphState) → (is_empty (entries_of s) && not (is_terminal s)) ≡ true → IsDeadEnd s
dead_test_sound s h = (eq-nil_of_empty (entries_of s) (ground arith), ground arith)

dead_test_complete :
    (s : GraphState) → IsDeadEnd s → (is_empty (entries_of s) && not (is_terminal s)) ≡ true
dead_test_complete s (none_listed, not_terminal) =
    rw (ap is_empty none_listed, ap not not_terminal) refl

dead_ends_sound :
    (m : Assoc GraphState) (f : Finding)
    → Member f (dead_ends m)
    → (id : String) × (s : GraphState) × (f ≡ dead_end id) × Member (id, s) m × IsDeadEnd s
unfolding dead_ends
dead_ends_sound [] f h = absurd h
dead_ends_sound ((id, s) ∷ m) f h =
    elim (Bool-cases (is_empty (entries_of s) && not (is_terminal s))) [
      | inr fine ↦
          let (id', s', e, listed, dead) = dead_ends_sound m f (rw fine at h) in
          (id', s', e, inr listed, dead)
      | inl stuck ↦
          elim (let h' : (f ≡ dead_end id) ⊎ Member f (dead_ends m) = rw stuck at h in h') [
            | inl e ↦ (id, s, e, inl refl, dead_test_sound s stuck)
            | inr later ↦
                let (id', s', e, listed, dead) = dead_ends_sound m f later in
                (id', s', e, inr listed, dead)
          ]
    ]

dead_ends_complete :
    (m : Assoc GraphState) (id : String) (s : GraphState)
    → Member (id, s) m
    → IsDeadEnd s
    → Member (dead_end id) (dead_ends m)
unfolding dead_ends
dead_ends_complete [] id s h dead = absurd h
dead_ends_complete ((j, t) ∷ m) id s (inl e) dead =
    let d = subst (λ (p : String × GraphState). IsDeadEnd p.1) e dead in
    rw (dead_test_complete t d) (inl (ap (λ (p : String × GraphState). dead_end p.0) e))
dead_ends_complete ((j, t) ∷ m) id s (inr h) dead =
    let rest = dead_ends_complete m id s h dead in
    elim (Bool-cases (is_empty (entries_of t) && not (is_terminal t))) [
      | inl stuck ↦ rw stuck (inr rest)
      | inr fine ↦ rw fine rest
    ]

Member-unvisited :
    (v ks : List String) (k : String) → Member k (unvisited v ks) → Member k ks × (¬ Member k v)
unfolding unvisited
Member-unvisited v [] k m = absurd m
Member-unvisited v (j ∷ ks) k m = elim (Bool-cases (contains j v)) [
  | inl old ↦ let (listed, new) = Member-unvisited v ks k (rw old at m) in (inr listed, new)
  | inr new ↦ elim (let m' : (k ≡ j) ⊎ Member k (unvisited v ks) = rw new at m in m') [
    | inl e ↦ (inl e, rw e (not-contains j v new))
    | inr later ↦ let (listed, new') = Member-unvisited v ks k later in (inr listed, new')
  ]
]

unvisited-Member :
    (v ks : List String) (k : String) → Member k ks → ¬ Member k v → Member k (unvisited v ks)
unfolding unvisited
unvisited-Member v [] k m new = absurd m
unvisited-Member v (j ∷ ks) k m new = elim (Bool-cases (contains j v)) [
  | inl old ↦ rw old (elim m [
    | inl e ↦ absurd (new (rw e (contains-Member j v old)))
    | inr later ↦ unvisited-Member v ks k later new
  ])
  | inr fresh ↦
      rw fresh (elim m [ inl e ↦ inl e | inr later ↦ inr (unvisited-Member v ks k later new) ])
]

blank_test_sound :
    (s : GraphState) → (is_final s && is_blank_option s.final_desc) ≡ true → IsUndescribed s
blank_test_sound s h = elim (Option-cases s.final_desc) [
  | inl absent ↦ absurd (cc (rw absent at h))
  | inr (description, e) ↦ (description, e, rw e at h)
]

blank_test_complete :
    (s : GraphState) → IsUndescribed s → (is_final s && is_blank_option s.final_desc) ≡ true
blank_test_complete s (description, e, blank) = rw (e, blank) refl

undescribed_finals_sound :
    (m : Assoc GraphState) (f : Finding)
    → Member f (undescribed_finals m)
    → (id : String) × (s : GraphState) × (f ≡ undescribed id) × Member (id, s) m × IsUndescribed s
unfolding undescribed_finals
undescribed_finals_sound [] f h = absurd h
undescribed_finals_sound ((id, s) ∷ m) f h =
    elim (Bool-cases (is_final s && is_blank_option s.final_desc)) [
      | inr fine ↦
          let (id', s', e, listed, blank) = undescribed_finals_sound m f (rw fine at h) in
          (id', s', e, inr listed, blank)
      | inl bare ↦
          elim (let h' : (f ≡ undescribed id) ⊎ Member f (undescribed_finals m) = rw bare at h in
            h') [
              | inl e ↦ (id, s, e, inl refl, blank_test_sound s bare)
              | inr later ↦
                  let (id', s', e, listed, blank) = undescribed_finals_sound m f later in
                  (id', s', e, inr listed, blank)
            ]
    ]

undescribed_finals_complete :
    (m : Assoc GraphState) (id : String) (s : GraphState)
    → Member (id, s) m
    → IsUndescribed s
    → Member (undescribed id) (undescribed_finals m)
unfolding undescribed_finals
undescribed_finals_complete [] id s h blank = absurd h
undescribed_finals_complete ((j, t) ∷ m) id s (inl e) blank =
    let b = subst (λ (p : String × GraphState). IsUndescribed p.1) e blank in
    rw (blank_test_complete t b) (inl (ap (λ (p : String × GraphState). undescribed p.0) e))
undescribed_finals_complete ((j, t) ∷ m) id s (inr h) blank =
    let rest = undescribed_finals_complete m id s h blank in
    elim (Bool-cases (is_final t && is_blank_option t.final_desc)) [
      | inl bare ↦ rw bare (inr rest)
      | inr fine ↦ rw fine rest
    ]

Member-unreachable :
    (i : String) (ks : List String) (f : Finding)
    → Member f (map (λ id. unreachable id i) ks)
    → (k : String) × (f ≡ unreachable k i) × Member k ks
Member-unreachable i [] f m = absurd m
Member-unreachable i (j ∷ ks) f (inl e) = (j, e, inl refl)
Member-unreachable i (j ∷ ks) f (inr m) =
    let (k, e, listed) = Member-unreachable i ks f m in (k, e, inr listed)

unreachable-Member :
    (i : String) (ks : List String) (k : String)
    → Member k ks
    → Member (unreachable k i) (map (λ id. unreachable id i) ks)
unreachable-Member i [] k m = absurd m
unreachable-Member i (j ∷ ks) k (inl e) = inl (ap (λ id. unreachable id i) e)
unreachable-Member i (j ∷ ks) k (inr m) = inr (unreachable-Member i ks k m)

-- What the report of a flow says: no error and no warning but these, and all of these.
pub record IsAccurate (g : GraphFlow) (r : GraphValidationReport) : Type 0 where
  pub errors :
      (f : Finding)
      → Member f r.errors ↔ (
          (id : String) × (s : GraphState) × (f ≡ dead_end id)
          × Member (id, s) g.graph
          × IsDeadEnd s)
  pub warnings : (f : Finding) → Member f r.warnings ↔ (IsUndescribedIn g f ⊎ IsUnreachableIn g f)

unreachable_in_sound :
    (g : GraphFlow) (v : List String) (f : Finding)
    → Member f (unreachable_in g v)
    → (id : String) × (f ≡ unreachable id g.initial) × Member id (keys g.graph) × (¬ Member id v)
unreachable_in_sound g v f m =
    let ks = unvisited v (keys g.graph) in
    let (id, e, listed) = Member-unreachable g.initial (sort ks) f m in
    let (key, new) = Member-unvisited v (keys g.graph) id ((Member-sort_iff id ks).0 listed) in
    (id, e, key, new)

unreachable_in_complete :
    (g : GraphFlow) (v : List String) (id : String)
    → Member id (keys g.graph)
    → ¬ Member id v
    → Member (unreachable id g.initial) (unreachable_in g v)
unreachable_in_complete g v id listed new =
    let ks = unvisited v (keys g.graph) in
    unreachable-Member g.initial (sort ks) id
      ((Member-sort_iff id ks).1 (unvisited-Member v (keys g.graph) id listed new))

-- `validate_graph_reachability` always returns a report. Its errors are exactly the dead ends: the
-- states with no `next:` entry that are neither final nor human. Its warnings are exactly these: one
-- for each final state whose description is blank, and one for each state of the graph that no path
-- of `next:` entries leads to from `initial`.
pub reachability_report :
    (g : GraphFlow)
    → (r : GraphValidationReport) × (validate_graph_reachability g ≡ some r) × IsAccurate g r
unfolding validate_graph_reachability
reachability_report g =
    let (v, ended, marked) = visited-Reaches g in
    let drawn = undescribed_finals g.graph in
    (
      record { errors = dead_ends g.graph; warnings = drawn ++ unreachable_in g v },
      rw (ended, validate_graph_reachability),
      record {
        errors = λ f. (
          dead_ends_sound g.graph f,
          λ h.
              let (id, s, e, listed, dead) = h in
              rw e (dead_ends_complete g.graph id s listed dead),
        );
        warnings = λ f. (
          λ m. elim (Member-append_cases f drawn _ m) [
            | inl bare ↦ inl (undescribed_finals_sound g.graph f bare)
            | inr cut ↦
                let (id, e, key, new) = unreachable_in_sound g v f cut in
                inr (id, e, key, λ path. new ((marked id).1 path))
          ],
          λ h. elim h [
            | inl (id, s, e, listed, blank) ↦ rw e (
                Member-append_left (undescribed id) drawn (unreachable_in g v)
                  (undescribed_finals_complete g.graph id s listed blank))
            | inr (id, e, key, apart) ↦ rw e (
                Member-append_right (unreachable id g.initial) drawn (unreachable_in g v)
                  (unreachable_in_complete g v id key (λ old. apart ((marked id).0 old))))
          ],
        );
      },
    )
