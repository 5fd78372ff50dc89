-- ===== src/Runner/Linear/Whole.antt =====
-- A linear flow whose steps stand in the order of `validate_dag`, as it runs from an empty directory.
use kuromaku.Prelude.{ℕ, zero, suc, String, ◌≡◌, ◌⊎◌, false, List, [], ◌∷◌, ◌++◌}
use kuromaku.Runner.Graph.Model.{StepRunResult, Disk, RunError}
use kuromaku.Runner.Linear.Model.{StepEnd, finished, failed_with, waiting}
use kuromaku.Runner.Linear.Stored.{disk_ids, numbers, result_ids}
use kuromaku.Runner.Linear.Fine.{is_missing}
use kuromaku.Runner.Linear.Run.{RunEnd, done, aborted, stalled}

-- 1, 2, …, n.
abbrev pub up_to : ℕ → List ℕ
up_to zero = []
up_to (suc n) = up_to n ++ suc n ∷ []

abbrev pub IsPrefix : List String → List String → Type 0
IsPrefix some_ids all = (rest : List String) × (all ≡ some_ids ++ rest)

-- A run that is done has a result and a record for each step, in order and numbered from 1. A run that
-- is not has the records of the first steps, and its error is none of a missing input.
abbrev pub RunFed : (all : List String) → (total : ℕ) → RunEnd → Type 0
RunFed all total (done results disk) =
    (result_ids results ≡ all) × (disk_ids disk ≡ all) × (numbers disk ≡ up_to total)
RunFed all total (aborted e disk) = (is_missing e ≡ false) × IsPrefix (disk_ids disk) all
RunFed all total (stalled disk) = IsPrefix (disk_ids disk) all

-- The loop before a step: `pre` are the ids of the steps that have run.
record Before (pre : List String) (i : ℕ) (results : List StepRunResult) (disk : Disk)
    : Type 0 where
  pub on_disk : disk_ids disk ≡ pre
  pub named : result_ids results ≡ pre
  pub numbered : numbers disk ≡ up_to i

abbrev EndCases : StepEnd → Type 0
EndCases end =
    ((r : StepRunResult) × (disk : Disk) × (end ≡ finished r disk))
    ⊎ ((e : RunError) × (end ≡ failed_with e))
    ⊎ (end ≡ waiting)
