-- ===== src/Runner/RunPath/Tests.antt =====
-- Names for a run's directory beside existing ones.
use kuromaku.Prelude.{String, str_eq, ◌≡◌, refl, some, List, [], ◌∷◌}
use kuromaku.Runner.RunPath.{free_candidate, unique_run_path}
use kuromaku.Runner.RunPath.Free.{IsFree, unique_run_path-IsFree}

abbrev taken : List String
taken = "dev" ∷ "dev-2" ∷ []

third_name : unique_run_path taken "dev" ≡ some "dev-3"
unfolding unique_run_path free_candidate str_eq
third_name = refl

unique_run_path-IsFree_example :
    (name : String) × (unique_run_path taken "dev" ≡ some name) × IsFree taken "dev" name
unique_run_path-IsFree_example = unique_run_path-IsFree taken "dev"
