-- ===== src/Runner/Graph/Drive/Advance.antt =====
-- One round of the loop of `run_graph_flow`, over all kinds of states.
use kuromaku.Prelude.{
  ◌≤◌, String, ◌≡◌, refl, ap, ◌≢◌, ◌⊎◌, inl, inr, true, false, none, some, List, [], ◌∷◌, lookup,
  head?, Bool-cases, Option-cases, List-cases, arith,
}
use kuromaku.Prelude.Result.{Result, ok, err, Result-cases}
use kuromaku.Core.GraphFlow.{GraphState, SelectEntry, is_final, is_human}
use kuromaku.Core.Validator.{entries_of}
use kuromaku.Runner.Graph.Model.{
  RunError, graph_runtime, no_select, empty_select, state_not_found, World, Setup, Driver, stop,
  GraphRunOutcome, final, paused, pause, inline,
}
use kuromaku.Runner.Graph.Shell.{targets_of}
use kuromaku.Runner.Graph.Working.{working_state, fail}
use kuromaku.Runner.Graph.Human.{human_state, resume_past, inline_state, inline_handoff}
use kuromaku.Runner.Graph.Drive.{advance}
use kuromaku.Runner.Graph.Drive.Calls.{IsStructural, Post, Post-mono}
use kuromaku.Runner.Graph.Drive.Round.{Counted, Fails, Ready, working_state-Post}

-- A human state has been passed by its first entry.
pub record Handed (setup : Setup) (d d' : Driver) (s : GraphState) : Type 0 where
  pub human : is_human s ≡ true
  pub first : SelectEntry
  pub listed : head? (entries_of s) ≡ some first
  pub moved : d'.current ≡ first.target
  pub same_results : d'.results ≡ d.results
  pub same_visits : d'.visits ≡ d.visits
  pub not_back : d.step_num ≤ d'.step_num
  -- The one pause that a resumed run skips, or a handoff at the terminal.
  pub cause :
      (d.skip_pause_once ≡ true) × (d'.skip_pause_once ≡ false) × (d'.step_num ≡ d.step_num)
      ⊎ (setup.policy ≡ inline) × (d.skip_pause_once ≡ false) × (d'.skip_pause_once ≡ false)

-- What a round goes on with.
abbrev pub Moves : Setup → Driver → GraphState → Driver → Type 0
Moves setup d s d' = (is_human s ≡ false) × Counted d d' (entries_of s) ⊎ Handed setup d d' s

-- What a round ends the run with, at a state `s`.
abbrev pub Ends : Setup → Driver → GraphState → Type 0 → Result RunError GraphRunOutcome → Type 0
Ends setup d s C (ok (final steps id)) =
    (is_final s ≡ true) × (steps ≡ d.results) × (id ≡ d.current)
Ends setup d s C (ok (paused steps id)) =
    (is_human s ≡ true) × (setup.policy ≡ pause) × (steps ≡ d.results) × (id ≡ d.current)
Ends setup d s C (err e) = C → ¬ IsStructural e

-- What keeps a round at `s` from a structural error.
abbrev pub Sound : Setup → String → GraphState → Type 0
Sound setup id s =
    (is_human s ≡ true → entries_of s ≢ [])
    × (is_final s ≡ false
        → is_human s ≡ false
        → (entries_of s ≢ []) × Ready setup id s (entries_of s))

module _ (w : World) (setup : Setup) (d : Driver) (s : GraphState) where
  abbrev EndsHere : Result RunError GraphRunOutcome → Type 0
  EndsHere = Ends setup d s (Sound setup d.current s)

  no_first : head? (entries_of s) ≡ none → entries_of s ≡ []
  no_first h = elim (List-cases (entries_of s)) [
    | inl e ↦ e
    | inr (x, r, e) ↦ absurd (ground (arith, ap (head? {A = SelectEntry}) e))
  ]

  resume_past-Post :
      (env : w.State)
      → is_human s ≡ true
      → d.skip_pause_once ≡ true
      → Post w (λ d'. Handed setup d d' s) EndsHere (resume_past w setup d s env)
  unfolding resume_past fail
  resume_past-Post env human skip = elim (Option-cases (head? (entries_of s))) [
    | inl e ↦ rw (resume_past, e) (λ c bad. c.0 human (no_first e))
    | inr (first, e) ↦
        rw (resume_past, e)
          (record {
            human = human;
            first = first;
            listed = e;
            moved = refl;
            same_results = refl;
            same_visits = refl;
            not_back = omega arith;
            cause = inl (skip, refl, refl);
          })
  ]

  inline_handoff-Post :
      (e : SelectEntry) (body : String) (env : w.State)
      → is_human s ≡ true
      → setup.policy ≡ inline
      → d.skip_pause_once ≡ false
      → head? (entries_of s) ≡ some e
      → Post w (λ d'. Handed setup d d' s) EndsHere (inline_handoff w setup d s e body env)
  unfolding inline_handoff fail
  inline_handoff-Post e body env human policy skip listed = ground arith

  inline_state-Post :
      (env : w.State)
      → is_human s ≡ true
      → setup.policy ≡ inline
      → d.skip_pause_once ≡ false
      → Post w (λ d'. Handed setup d d' s) EndsHere (inline_state w setup d s env)
  unfolding inline_state fail
  inline_state-Post env human policy skip = elim (Option-cases (head? (entries_of s))) [
    | inl e ↦ rw (inline_state, e) (λ c bad. c.0 human (no_first e))
    | inr (first, e) ↦
        let (r, env') = w.read_human d.current s.task (targets_of (entries_of s)) env in
        elim (Result-cases r) [
          | inr (x, f) ↦ rw (inline_state, e, f) (λ c bad. bad)
          | inl (body, f) ↦
              let stepped : inline_state w setup d s env
                  ≡ inline_handoff w setup d s first body env' =
                rw (inline_state, e, f) refl in
              rw stepped (inline_handoff-Post first body env' human policy skip e)
        ]
  ]

  policy-cases : (setup.policy ≡ pause) ⊎ (setup.policy ≡ inline)
  policy-cases = ground arith

  human_state-Post :
      (env : w.State)
      → is_human s ≡ true
      → Post w (λ d'. Handed setup d d' s) EndsHere (human_state w setup d s env)
  unfolding human_state
  human_state-Post env human = elim (Bool-cases d.skip_pause_once) [
    | inl skip ↦
        let stepped : human_state w setup d s env ≡ resume_past w setup d s env =
          rw (human_state, skip) refl in
        rw stepped (resume_past-Post env human skip)
    | inr go ↦ elim policy-cases [
      | inl p ↦ ground arith
      | inr p ↦
          let stepped : human_state w setup d s env ≡ inline_state w setup d s env = ground arith in
          rw stepped (inline_state-Post env human p go)
    ]
  ]

Fails-Ends :
    (setup : Setup) (d : Driver) (s : GraphState) (C D : Type 0)
    (r : Result RunError GraphRunOutcome)
    → (D → C)
    → Fails C r
    → Ends setup d s D r
Fails-Ends setup d s C D (ok o) f h = absurd h
Fails-Ends setup d s C D (err e) f h = λ c. h (f c)

select_of :
    (s : GraphState) (x : SelectEntry) (xs : List SelectEntry)
    → entries_of s ≡ x ∷ xs
    → s.select ≡ some (x ∷ xs)
select_of s x xs e = ground arith

module _ (w : World) (setup : Setup) (d : Driver) (env : w.State) where
  empty_state :
      (s : GraphState)
      → lookup d.current setup.graph.graph ≡ some s
      → is_final s ≡ false
      → is_human s ≡ false
      → entries_of s ≡ []
      → Post w (Moves setup d s) (Ends setup d s (Sound setup d.current s)) (advance w setup d env)
  unfolding advance fail
  empty_state s found on works e = elim (Option-cases s.select) [
    | inl n ↦
        let stepped : advance w setup d env ≡ stop (err (graph_runtime d.current no_select)) d env =
          ground arith in
        rw stepped (λ c bad. (c.1 on works).0 e)
    | inr (es, l) ↦
        let stepped : advance w setup d env
            ≡ stop (err (graph_runtime d.current empty_select)) d env =
          ground arith in
        rw stepped (λ c bad. (c.1 on works).0 e)
  ]

  -- A round at a state of the graph.
  pub advance-Post :
      (s : GraphState)
      → lookup d.current setup.graph.graph ≡ some s
      → Post w (Moves setup d s) (Ends setup d s (Sound setup d.current s)) (advance w setup d env)
  unfolding advance fail
  advance-Post s found = elim (Bool-cases (is_final s)) [
    | inl over ↦ rw (advance, found, over) (over, refl, refl)
    | inr on ↦ elim (Bool-cases (is_human s)) [
      | inl human ↦
          let stepped : advance w setup d env ≡ human_state w setup d s env =
            rw (advance, found, on, human) refl in
          rw stepped (
            Post-mono w (λ d'. Handed setup d d' s) (Moves setup d s)
              (Ends setup d s (Sound setup d.current s)) (Ends setup d s (Sound setup d.current s))
              (human_state w setup d s env) (λ d' h. inr h) (λ r h. h)
              (human_state-Post w setup d s env human))
      | inr works ↦ elim (List-cases (entries_of s)) [
        | inl e ↦ empty_state s found on works e
        | inr (x, xs, e) ↦
            let stepped : advance w setup d env ≡ working_state w setup d s (entries_of s) env =
              ground (arith, select_of s x xs e) in
            rw stepped (
              Post-mono w (λ d'. Counted d d' (entries_of s)) (Moves setup d s) _ _ _
                (λ d' h. inl (works, h))
                (λ r h.
                  Fails-Ends setup d s _ (Sound setup d.current s) r (λ c. (c.1 on works).1) h)
                (working_state-Post w setup d s (entries_of s) env))
      ]
    ]
  ]

  -- Outside the graph a round ends the run.
  pub advance-unknown :
      lookup d.current setup.graph.graph ≡ none
      → Post w
          (λ d'. ⊥)
          (λ r. r ≡ err (graph_runtime d.current state_not_found))
          (advance w setup d env)
  unfolding advance fail
  advance-unknown e = rw (advance, e) refl
