-- ===== src/Runner/Linear/Fine.antt =====
-- A step that has its content, and the errors of the parts of a step.
use kuromaku.Prelude.{
  ℕ, String, ◌≡◌, refl, sym, ◌∙◌, ap, subst, inl, inr, Bool, true, false, some, List, [], ◌∷◌, ◌++◌,
  Member, Assoc, lookup, Bool-cases, Option-cases, str_eq, str_eq_iff, arith,
}
use mathlib.Core.Option.{some-injective}
use kuromaku.Prelude.Text.{◌<>◌}
use kuromaku.Prelude.Result.{Result, ok, err, Result-cases}
use kuromaku.Config.{Step}
use kuromaku.Messaging.Router.{Router, add_agent}
use kuromaku.Runner.Graph.Model.{
  Backend, api, claude_cli, codex, ollama, claude_command, codex_command, ollama_command, Agent,
  StepRecord, StepRunResult, StoredStep, Disk, StackError, step_not_found, RunError, unknown_agent,
  executor_failed, stack_error, llm_failed, conversation_unsupported_backend, conversation_spawn,
  graph_runtime, panicked, World,
}
use kuromaku.Runner.Graph.Prompt.{same_backend}
use kuromaku.Runner.Graph.Disk.{same_files, overwrite, write_run_step, step_meta_filename}
use kuromaku.Runner.Linear.Model.{Context, Calls, StepEnd, finished, failed_with, waiting}
use kuromaku.Runner.Linear.Steps.{
  stored, commented, run_step_via_executor, run_step_via_api, run_backend, run_shell_step,
  step_command,
}
use kuromaku.Runner.Linear.Talk.{participants_of, backend_gate, spawn_all}
use kuromaku.Runner.Linear.Stored.{disk_ids, numbers}

abbrev pub is_missing_step : StackError → Bool
is_missing_step (step_not_found id) = true
is_missing_step other = false

-- The error of a step that has not found an input.
abbrev pub is_missing : RunError → Bool
is_missing (unknown_agent step agent) = false
is_missing (executor_failed step source) = false
is_missing (stack_error step source) = is_missing_step source
is_missing (llm_failed step error) = false
is_missing (conversation_unsupported_backend step agent backend) = false
is_missing (conversation_spawn step agent error) = false
is_missing (graph_runtime state reason) = false
is_missing panicked = false

-- A step that ends has put its record, with its number, behind the others, which keep their names.
abbrev pub StepFine : Step → ℕ → Disk → StepEnd → Type 0
StepFine s n disk (finished r disk') =
    (r.step_id ≡ s.id)
    × (disk_ids disk' ≡ disk_ids disk ++ s.id ∷ [])
    × (numbers disk' ≡ numbers disk ++ n ∷ [])
StepFine s n disk (failed_with e) = is_missing e ≡ false
StepFine s n disk waiting = Unit

-- Writing a step whose id is new adds its names behind those that are there.
overwrite_fresh :
    (s : StoredStep) (disk : Disk)
    → ¬ Member s.entry.step_id (disk_ids disk)
    → (disk_ids (overwrite s disk ++ s ∷ []) ≡ disk_ids disk ++ s.entry.step_id ∷ [])
      × (numbers (overwrite s disk ++ s ∷ []) ≡ numbers disk ++ s.number ∷ [])
unfolding overwrite same_files
overwrite_fresh s [] h = (refl, refl)
overwrite_fresh s (t ∷ ts) h = elim (Bool-cases (str_eq s.entry.step_id t.entry.step_id)) [
  | inl e ↦ absurd (h (inl ((str_eq_iff s.entry.step_id t.entry.step_id).0 e)))
  | inr e ↦
      let (named, numbered) = overwrite_fresh s ts (λ m. h (inr m)) in
      let apart : same_files s t ≡ false = ground (arith, e) in
      rw apart (ap (◌∷◌ t.entry.step_id) named, ap (◌∷◌ t.number) numbered)
]

module _ (w : World) (s : Step) (n : ℕ) (disk : Disk) (fresh : ¬ Member s.id (disk_ids disk)) where
  pub stored-Fine :
      (r : StepRecord) (content : String) (result : StepRunResult) (env : w.State)
      → r.step_id ≡ s.id
      → result.step_id ≡ s.id
      → StepFine s n disk (stored w n s r content result disk env)
  unfolding stored write_run_step
  stored-Fine r content result env same named =
      let t : StoredStep = record { number = n; entry = r; content = content } in
      let (ids, nums) =
        overwrite_fresh t disk (subst (λ k. ¬ Member k (disk_ids disk)) (sym same) fresh) in
      elim (Bool-cases (w.init_fails env)) [
        | inl e ↦ rw (stored, write_run_step, e) refl
        | inr e ↦ elim (Bool-cases (w.write_fails r.output_file env)) [
          | inl f ↦ rw (stored, write_run_step, e, f) refl
          | inr f ↦ elim (Option-cases (w.to_yaml_error r)) [
            | inr (x, g) ↦ rw (stored, write_run_step, e, f, g) refl
            | inl g ↦ elim (Bool-cases (w.write_fails (step_meta_filename n r.step_id) env)) [
              | inl h ↦ rw (stored, write_run_step, e, f, g, h) refl
              | inr h ↦
                  rw (stored, write_run_step, e, f, g, h)
                    (named, ids ∙ ap (λ k. disk_ids disk ++ k ∷ []) same, nums)
            ]
          ]
        ]
      ]

  pub commented-Fine :
      (post : w.State → w.State) (p : StepEnd × w.State)
      → StepFine s n disk p.0
      → StepFine s n disk (commented post p).0
  commented-Fine post (finished r d, env) h = h
  commented-Fine post (failed_with e, env) h = h
  commented-Fine post (waiting, env) h = h

  module _ (c : Calls w) (ctx : Context) where
    pub shell-Fine :
        (results : List StepRunResult) (env : w.State)
        → StepFine s n disk (run_shell_step w c ctx s n results disk env).0
    unfolding run_shell_step
    shell-Fine results env = elim (Option-cases s.run) [
      | inl e ↦ rw (run_shell_step, e) refl
      | inr (command, e) ↦ elim (Result-cases (c.run_command s.id command env).0) [
        | inr (x, f) ↦ rw (run_shell_step, e, f) refl
        | inl (stdout, f) ↦
            rw (run_shell_step, e, f) (commented-Fine _ _ (stored-Fine _ _ _ _ refl refl))
      ]
    ]

-- An error, if there is one, is none of a missing input.
abbrev pub NotMissing : {A : Type 0} → Result RunError A → Type 0
NotMissing (ok a) = Unit
NotMissing (err e) = is_missing e ≡ false

pub NotMissing-err :
    {A : Type 0} (r : Result RunError A) (e : RunError)
    → NotMissing r
    → r ≡ err e
    → is_missing e ≡ false
NotMissing-err r e h same = subst NotMissing same h

module _ (w : World) (c : Calls w) (ctx : Context) (s : Step) where
  pub backend-NotMissing :
      (system user model : String) (b : Backend) (args : List String) (env : w.State)
      → NotMissing (run_backend w c ctx s system user model b args env).0
  unfolding run_backend run_step_via_executor run_step_via_api step_command
  backend-NotMissing system user model api args env =
      elim (Result-cases (c.call_api s.id model system user env).0) [
        | inl (a, e) ↦ rw (run_backend, run_step_via_api, e) tt
        | inr (x, e) ↦ rw (run_backend, run_step_via_api, e) refl
      ]
  backend-NotMissing system user model claude_cli args env =
      elim (Result-cases (w.run_agent s.id 0 (claude_command model system user args) env).0) [
        | inl (a, e) ↦ rw (run_backend, run_step_via_executor, e) tt
        | inr (x, e) ↦ rw (run_backend, run_step_via_executor, e) refl
      ]
  backend-NotMissing system user model codex args env =
      elim (Result-cases (w.run_agent s.id 0 (codex_command model system user args) env).0) [
        | inl (a, e) ↦ rw (run_backend, run_step_via_executor, e) tt
        | inr (x, e) ↦ rw (run_backend, run_step_via_executor, e) refl
      ]
  backend-NotMissing system user model ollama args env =
      elim (Result-cases
        (w.run_agent s.id 0
          (ollama_command model ("System: " <> system <> "\n\n" <> "User: " <> user) args) env).0) [
            | inl (a, e) ↦ rw (run_backend, run_step_via_executor, e) tt
            | inr (x, e) ↦ rw (run_backend, run_step_via_executor, e) refl
          ]

  pub participants-NotMissing :
      (agents : Assoc Agent) (names : List String) → NotMissing (participants_of agents s.id names)
  unfolding participants_of
  participants-NotMissing agents [] = tt
  participants-NotMissing agents (a ∷ others) =
      let rest = participants-NotMissing agents others in
      elim (Option-cases (lookup a agents)) [
        | inl e ↦ rw (participants_of, e) refl
        | inr (x, e) ↦ elim (Result-cases (participants_of agents s.id others)) [
          | inl (known, f) ↦ rw (participants_of, e, f) tt
          | inr (bad, f) ↦
              rw (participants_of, e, f)
                (NotMissing-err (participants_of agents s.id others) bad rest f)
        ]
      ]

  pub gate-NotMissing :
      (rest : List Agent) (e : RunError) → backend_gate s.id rest ≡ some e → is_missing e ≡ false
  unfolding backend_gate
  gate-NotMissing [] e h = cc
  gate-NotMissing (a ∷ others) e h = elim (Bool-cases (same_backend a.backend claude_cli)) [
    | inl t ↦ gate-NotMissing others e (rw (backend_gate, t) at h)
    | inr t ↦
        subst (λ x. is_missing x ≡ false) (some-injective _ _ (rw (backend_gate, t) at h)) refl
  ]

  pub spawn-NotMissing :
      (rest : List Agent) (r : Router) (env : w.State)
      → NotMissing (spawn_all w c ctx s.id rest r env).0
  unfolding spawn_all
  spawn-NotMissing [] r env = tt
  spawn-NotMissing (a ∷ others) r env = elim (Option-cases (c.spawn s.id a.id env).0) [
    | inl e ↦
        rw (spawn_all, e) (spawn-NotMissing others (add_agent a.id r) (c.spawn s.id a.id env).1)
    | inr (x, e) ↦ rw (spawn_all, e) refl
  ]
