-- ===== src/Runner/Linear/Missing.antt =====
-- A step of src/runner/mod.rs whose inputs are on the disk never finds one missing, whatever fails in reading it.
use kuromaku.Prelude.{
  String, refl, subst, ◌≡◌, false, inl, inr, List, [], ◌∷◌, All, Member, Option-cases,
}
use kuromaku.Prelude.Result.{Result, ok, err, Result-cases}
use kuromaku.Config.{Step}
use kuromaku.Runner.Graph.Model.{StoredStep, Disk, StackError, World}
use kuromaku.Runner.Graph.Disk.{
  step_meta_filename, content_at, read_output, read_step, read_run_step_content,
}
use kuromaku.Runner.Linear.Steps.{read_inputs, build_user_prompt}
use kuromaku.Runner.Linear.Stored.{disk_ids, ListsAll, found-stored}
use kuromaku.Runner.Linear.Fine.{is_missing_step, NotMissing, NotMissing-err}

abbrev IsFound : Result StackError String → Type 0
IsFound (ok content) = Unit
IsFound (err e) = is_missing_step e ≡ false

module _ (w : World) where
  read_output-IsFound :
      (disk : Disk) (file : String) (env : w.State) → IsFound (read_output w disk file env)
  unfolding read_output
  read_output-IsFound disk file env = elim (Option-cases (w.read_error file env)) [
    | inr (x, e) ↦ rw (read_output, e) refl
    | inl e ↦ elim (Option-cases (content_at file disk)) [
      | inl f ↦ rw (read_output, e, f) refl
      | inr (content, f) ↦ rw (read_output, e, f) tt
    ]
  ]

  read_step-IsFound :
      (disk : Disk) (s : StoredStep) (env : w.State) → IsFound (read_step w disk s env)
  unfolding read_step
  read_step-IsFound disk s env =
      elim (Option-cases (w.read_error (step_meta_filename s.number s.entry.step_id) env)) [
        | inr (x, e) ↦ rw (read_step, e) refl
        | inl e ↦ elim (Result-cases (w.reread s.entry)) [
          | inr (x, f) ↦ rw (read_step, e, f) refl
          | inl (r, f) ↦ rw (read_step, e, f) (read_output-IsFound disk r.output_file env)
        ]
      ]

  module _ (lists : ListsAll w) where
    read-IsFound :
        (disk : Disk) (id : String) (env : w.State)
        → Member id (disk_ids disk)
        → IsFound (read_run_step_content w disk id env)
    unfolding read_run_step_content
    read-IsFound disk id env m =
        let (u, k, same, found) = found-stored w lists disk id env m in
        elim (Option-cases (w.read_dir_error env)) [
          | inr (x, e) ↦ rw (read_run_step_content, e) refl
          | inl e ↦ rw (read_run_step_content, e, found) (read_step-IsFound disk u env)
        ]

    read_inputs-NotMissing :
        (disk : Disk) (step : String) (inputs : List String) (env : w.State)
        → All (λ i. Member i (disk_ids disk)) inputs
        → NotMissing (read_inputs w disk step inputs env)
    unfolding read_inputs
    read_inputs-NotMissing disk step [] env h = tt
    read_inputs-NotMissing disk step (i ∷ is) env h =
        elim (Result-cases (read_run_step_content w disk i env)) [
          | inr (x, e) ↦ rw (read_inputs, e) (subst IsFound e (read-IsFound disk i env h.0))
          | inl (body, e) ↦ elim (Result-cases (read_inputs w disk step is env)) [
            | inl (parts, f) ↦ rw (read_inputs, e, f) tt
            | inr (x, f) ↦
                rw (read_inputs, e, f)
                  (NotMissing-err (read_inputs w disk step is env) x
                    (read_inputs-NotMissing disk step is env h.1) f)
          ]
        ]

    pub build_user_prompt-NotMissing :
        (task : String) (step : Step) (disk : Disk) (env : w.State)
        → All (λ i. Member i (disk_ids disk)) step.input
        → NotMissing (build_user_prompt w task step disk env)
    unfolding build_user_prompt
    build_user_prompt-NotMissing task step disk env h =
        elim (Result-cases (read_inputs w disk step.id step.input env)) [
          | inl (parts, e) ↦ rw (build_user_prompt, e) tt
          | inr (x, e) ↦
              rw (build_user_prompt, e)
                (NotMissing-err (read_inputs w disk step.id step.input env) x
                  (read_inputs-NotMissing disk step.id step.input env h) e)
        ]
